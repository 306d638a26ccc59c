-- ===== src/Firewall/Section.antt =====
-- What `removeBlockSection` leaves: the user's own lines, whatever the block between the markers.
use mathlib.Core.List.{append-nil}
use sagiri_guard.Base.{
  ◌≡◌, refl, ap, sym, ◌∙◌, true, false, List, [], ◌∷◌, ◌++◌, arith, any, All, All-append,
  any-append, Bool-cases, inl, inr,
}
use sagiri_guard.Base.Text.{Text, lit, contains, contains-any, contains_refl, is_upper}
use sagiri_guard.Firewall.{
  block_marker_start, block_marker_end, remove_from, remove_block_section, domain_lines,
  all_domain_lines, block_lines,
}
use sagiri_guard.Firewall.Lines.{
  Free, IsClean, reread, reread-append, reread-line, reread-of_clean, any-reread,
}

-- A line that has neither marker in it.
abbrev pub IsUser : Text → Type 0
IsUser l = (contains l block_marker_start ≡ false) × (contains l block_marker_end ≡ false)

-- A text with no upper case letter, as the manager keeps its domains.
abbrev pub IsLower : Text → Type 0
IsLower d = Free is_upper d

contains-marker : (l m : Text) → any is_upper m ≡ true → IsLower l → contains l m ≡ false
contains-marker l m u h = elim (Bool-cases (contains l m)) [
  | inl e ↦ cc (contains-any is_upper l m e u)
  | inr e ↦ e
]

IsLower-IsUser : (l : Text) → IsLower l → IsUser l
IsLower-IsUser l h =
    (contains-marker l block_marker_start refl h, contains-marker l block_marker_end refl h)

All-IsUser : (ls : List Text) → All IsLower ls → All IsUser ls
All-IsUser [] h = tt
All-IsUser (l ∷ ls) h = (IsLower-IsUser l h.0, All-IsUser ls h.1)

remove_from-append :
    (us rest : List Text)
    → All IsUser us
    → remove_from false (us ++ rest) ≡ us ++ remove_from false rest
unfolding remove_from
remove_from-append [] rest h = refl
remove_from-append (u ∷ us) rest h =
    rw (h.0.0, h.0.1) (ap (λ x. u ∷ x) (remove_from-append us rest h.1))

remove_from-skips :
    (us rest : List Text) → All IsUser us → remove_from true (us ++ rest) ≡ remove_from true rest
unfolding remove_from
remove_from-skips [] rest h = refl
remove_from-skips (u ∷ us) rest h = rw (h.0.0, h.0.1) (remove_from-skips us rest h.1)

remove_from-start :
    (rest : List Text) → remove_from false (block_marker_start ∷ rest) ≡ remove_from true rest
unfolding remove_from
remove_from-start rest = rw (contains_refl block_marker_start)

end_not_start : contains block_marker_end block_marker_start ≡ false
unfolding contains
end_not_start = refl

remove_from-end :
    (rest : List Text) → remove_from true (block_marker_end ∷ rest) ≡ remove_from false rest
unfolding remove_from
remove_from-end rest = rw (end_not_start, contains_refl block_marker_end)

line_lower : (p d : Text) → any is_upper p ≡ false → IsLower d → IsLower (p ++ d)
line_lower p d hp hd = any-append is_upper p d ∙ ground arith

domain_lines-IsLower : (d : Text) → IsLower d → All IsLower (domain_lines d)
unfolding domain_lines
domain_lines-IsLower d h =
    ground
      (arith, line_lower (lit "127.0.0.1 ") d refl h, line_lower (lit "127.0.0.1 www.") d refl h)

all_domain_lines-IsLower : (ds : List Text) → All IsLower ds → All IsLower (all_domain_lines ds)
unfolding all_domain_lines
all_domain_lines-IsLower [] h = tt
all_domain_lines-IsLower (d ∷ ds) h =
    All-append IsLower (domain_lines d) (all_domain_lines ds) (domain_lines-IsLower d h.0)
      (all_domain_lines-IsLower ds h.1)

marker_start_line : IsClean block_marker_start
marker_start_line = (refl, refl)

marker_end_line : IsClean block_marker_end
marker_end_line = (refl, refl)

-- Lines in which the user's own are `us`: there is no section, or one section between markers, which
-- the user's lines stand round. None of the user's lines holds a marker.
pub data Split (us ls : List Text) : Type 0 where
  whole : ls ≡ us → All IsUser us → Split us ls
  around :
      (before mid after : List Text)
      → us ≡ before ++ after
      → ls ≡ before ++ (block_marker_start ∷ (mid ++ (block_marker_end ∷ after)))
      → All IsUser before
      → All IsUser mid
      → All IsUser after
      → Split us ls

remove_from-user : (us : List Text) → All IsUser us → remove_from false us ≡ us
unfolding remove_from
remove_from-user us h =
    ap (remove_from false) (sym (append-nil us)) ∙ (remove_from-append us [] h ∙ append-nil us)

-- Removing the section gives the user's lines.
pub Split-removed : (us ls : List Text) → Split us ls → remove_block_section ls ≡ us
unfolding remove_block_section
Split-removed us ls (whole e h) = rw e (remove_from-user us h)
Split-removed us ls (around before mid after u e hb hm ha) = rw (
  u,
  e,
  remove_from-append before (block_marker_start ∷ (mid ++ (block_marker_end ∷ after))) hb,
  remove_from-start (mid ++ (block_marker_end ∷ after)),
  remove_from-skips mid (block_marker_end ∷ after) hm,
  remove_from-end after,
  remove_from-user after ha,
)

pub Split-IsUser : (us ls : List Text) → Split us ls → All IsUser us
Split-IsUser us ls (whole e h) = h
Split-IsUser us ls (around before mid after u e hb hm ha) =
    rw u (All-append IsUser before after hb ha)

-- A block that is written behind the user's lines and scanned again is one section.
pub Split-reread :
    (us ds : List Text)
    → All IsClean us
    → All IsUser us
    → All IsLower ds
    → Split us (reread (us ++ block_lines ds))
unfolding block_lines
Split-reread us [] clean user h = whole (rw (append-nil us) (reread-of_clean us clean)) user
Split-reread us (d ∷ ds) clean user h =
    let mids = all_domain_lines (d ∷ ds) in
    around us (reread mids) [] (sym (append-nil us))
      (rw (
        reread-append us (block_marker_start ∷ (mids ++ (block_marker_end ∷ []))),
        reread-append (block_marker_start ∷ []) (mids ++ (block_marker_end ∷ [])),
        reread-line block_marker_start marker_start_line,
        reread-append mids (block_marker_end ∷ []),
        reread-line block_marker_end marker_end_line,
        reread-of_clean us clean,
      ))
      user
      (All-IsUser (reread mids)
        (any-reread is_upper mids refl (all_domain_lines-IsLower (d ∷ ds) h)))
      tt
