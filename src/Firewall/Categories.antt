-- ===== src/Firewall/Categories.antt =====
-- The table of agent/internal/firewall/categories.go: the domains of each category.
use sagiri_guard.Base.{String, List, [], ◌∷◌, Option, none, some}
use sagiri_guard.Base.Text.{Text, lit}
use sagiri_guard.Base.Map.{Map, lookup}

-- `CategoryDomains`
abbrev pub category_domains : Map (List Text)
category_domains =
    (
      "social_media",
      lit "facebook.com"
          ∷ lit "www.facebook.com"
          ∷ lit "twitter.com"
          ∷ lit "www.twitter.com"
          ∷ lit "x.com"
          ∷ lit "www.x.com"
          ∷ lit "instagram.com"
          ∷ lit "www.instagram.com"
          ∷ lit "tiktok.com"
          ∷ lit "www.tiktok.com"
          ∷ lit "linkedin.com"
          ∷ lit "www.linkedin.com"
          ∷ lit "youtube.com"
          ∷ lit "www.youtube.com"
          ∷ lit "reddit.com"
          ∷ lit "www.reddit.com"
          ∷ lit "pinterest.com"
          ∷ lit "www.pinterest.com"
          ∷ lit "snapchat.com"
          ∷ lit "www.snapchat.com"
          ∷ lit "discord.com"
          ∷ lit "www.discord.com"
          ∷ lit "telegram.org"
          ∷ lit "web.telegram.org"
          ∷ [],
    )
    ∷ (
      "ai",
      lit "chatgpt.com"
          ∷ lit "www.chatgpt.com"
          ∷ lit "openai.com"
          ∷ lit "www.openai.com"
          ∷ lit "claude.ai"
          ∷ lit "www.claude.ai"
          ∷ lit "bard.google.com"
          ∷ lit "gemini.google.com"
          ∷ lit "perplexity.ai"
          ∷ lit "www.perplexity.ai"
          ∷ lit "character.ai"
          ∷ lit "www.character.ai"
          ∷ lit "midjourney.com"
          ∷ lit "www.midjourney.com"
          ∷ lit "stability.ai"
          ∷ lit "www.stability.ai"
          ∷ [],
    )
    ∷ (
      "gaming",
      lit "steamcommunity.com"
          ∷ lit "store.steampowered.com"
          ∷ lit "epicgames.com"
          ∷ lit "www.epicgames.com"
          ∷ lit "roblox.com"
          ∷ lit "www.roblox.com"
          ∷ lit "twitch.tv"
          ∷ lit "www.twitch.tv"
          ∷ lit "battlenet.com"
          ∷ lit "www.battlenet.com"
          ∷ lit "origin.com"
          ∷ lit "www.origin.com"
          ∷ [],
    )
    ∷ (
      "shopping",
      lit "amazon.com"
          ∷ lit "www.amazon.com"
          ∷ lit "ebay.com"
          ∷ lit "www.ebay.com"
          ∷ lit "shopee.vn"
          ∷ lit "www.shopee.vn"
          ∷ lit "lazada.vn"
          ∷ lit "www.lazada.vn"
          ∷ lit "tiki.vn"
          ∷ lit "www.tiki.vn"
          ∷ lit "aliexpress.com"
          ∷ lit "www.aliexpress.com"
          ∷ [],
    )
    ∷ (
      "news",
      lit "vnexpress.net"
          ∷ lit "www.vnexpress.net"
          ∷ lit "dantri.com.vn"
          ∷ lit "www.dantri.com.vn"
          ∷ lit "tuoitre.vn"
          ∷ lit "www.tuoitre.vn"
          ∷ lit "thanhnien.vn"
          ∷ lit "www.thanhnien.vn"
          ∷ lit "bbc.com"
          ∷ lit "www.bbc.com"
          ∷ lit "cnn.com"
          ∷ lit "www.cnn.com"
          ∷ [],
    )
    ∷ (
      "entertainment",
      lit "netflix.com"
          ∷ lit "www.netflix.com"
          ∷ lit "disney.com"
          ∷ lit "www.disney.com"
          ∷ lit "hulu.com"
          ∷ lit "www.hulu.com"
          ∷ lit "spotify.com"
          ∷ lit "www.spotify.com"
          ∷ lit "soundcloud.com"
          ∷ lit "www.soundcloud.com"
          ∷ [],
    )
    ∷ (
      "adult",
      lit "pornhub.com"
          ∷ lit "www.pornhub.com"
          ∷ lit "xvideos.com"
          ∷ lit "www.xvideos.com"
          ∷ lit "xhamster.com"
          ∷ lit "www.xhamster.com"
          ∷ [],
    )
    ∷ []

-- A key that is missing gives the nil slice.
abbrev pub or_empty : Option (List Text) → List Text
or_empty none = []
or_empty (some ds) = ds

-- `GetDomainsByCategory`
unfoldable pub get_domains_by_category : String → List Text
unfolding lookup
get_domains_by_category category = or_empty (lookup category category_domains)
