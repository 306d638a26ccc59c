-- ===== src/Network.antt =====
-- network/types.go: the messages that the C library hands over, and their decoding.
use sagiri_guard.Base.{
  ℕ, ◌+◌, [], ◌∷◌, Option, none, some, String, if◌then◌else◌, nat_eq, leb, length, drop,
}
use sagiri_guard.Base.Text.{Text}

abbrev pub msg_login : ℕ
msg_login = 0x01

abbrev pub msg_command : ℕ
msg_command = 0x02

abbrev pub msg_file_meta : ℕ
msg_file_meta = 0x03

abbrev pub msg_file_chunk : ℕ
msg_file_chunk = 0x04

abbrev pub msg_file_done : ℕ
msg_file_done = 0x05

abbrev pub msg_ack : ℕ
msg_ack = 0x06

abbrev pub msg_error : ℕ
msg_error = 0x7f

-- the C struct `protocol_message_t`, as far as it is read
pub record CMessage : Type 0 where
  pub type : ℕ
  pub device_id : String
  pub token : String
  pub session_id : String
  pub file_name : String
  pub file_size : ℕ
  pub chunk_offset : ℕ
  pub chunk_len : ℕ
  pub status_code : ℕ
  pub status_msg : Text
  pub bytes : Text

-- `ProtocolMessage`; a nil slice is `none`
pub record ProtocolMessage : Type 0 where
  pub type : ℕ
  pub raw : Text
  pub device_id : String
  pub token : String
  pub session_id : String
  pub command_json : Text
  pub file_name : String
  pub file_size : ℕ
  pub chunk_offset : ℕ
  pub chunk_len : ℕ
  pub chunk_data : Option Text
  pub status_code : ℕ
  pub status_msg : Text

-- the bytes behind the two lengths, the session, the token, the offset and the length
pub chunk_of_raw : Text → Option Text
chunk_of_raw (sid_len ∷ tok_len ∷ rest) =
    let pos = 2 + sid_len + tok_len + 8 in
    if leb pos (length (sid_len ∷ tok_len ∷ rest))
    then some (drop pos (sid_len ∷ tok_len ∷ rest))
    else none
chunk_of_raw _ = none

-- `convertProtocolMessage`
unfoldable pub convert_protocol_message : CMessage → ProtocolMessage
unfolding chunk_of_raw
convert_protocol_message c = record {
  type = c.type;
  raw = c.bytes;
  device_id = c.device_id;
  token = c.token;
  session_id = c.session_id;
  command_json = if nat_eq c.type msg_command then c.bytes else [];
  file_name = c.file_name;
  file_size = c.file_size;
  chunk_offset = c.chunk_offset;
  chunk_len = c.chunk_len;
  chunk_data = if nat_eq c.type msg_file_chunk then chunk_of_raw c.bytes else none;
  status_code = c.status_code;
  status_msg = c.status_msg;
}
