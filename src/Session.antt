-- ===== src/Session.antt =====
-- src/internal/Session/ControlMessage.h: the messages that two engines open and end a session with.
pub mod Ext
pub mod Messages
mod Tests
use net_link.Common.{
  ℕ, zero, suc, ◌+◌, ◌==◌, if◌then◌else◌, Bool, true, false, ◌||◌, not, List, [], ◌∷◌, length,
  Option, none, some,
}
use net_link.Protocol.Wire.{
  WireWriter, write_u8, write_u16, write_u64, write_text, WireReader, Read, return, ◌>>=◌, reader,
  next, read_u8, read_u16, read_u64, read_text, complete,
}

pub data ControlType : Type 0 where
  hello accept decline close : ControlType

abbrev pub control_value : ControlType → ℕ
control_value hello = 1
control_value accept = 2
control_value decline = 3
control_value close = 4

pub data DeclineReason : Type 0 where
  declined incompatible : DeclineReason

abbrev pub reason_value : DeclineReason → ℕ
reason_value declined = 0
reason_value incompatible = 1

-- This version sends no extension fields.
unfoldable pub write_ext : WireWriter → WireWriter
unfolding write_u16
write_ext = write_u16 0

-- The loop of `skipExt`. Each round takes two bytes at least.
unfoldable pub skip_fields : ℕ → WireReader → Bool
skip_fields zero fields = false
skip_fields (suc fuel) fields =
    let (type, after_type) = read_u8 fields in
    let (size, after_size) = read_u8 after_type in
    let (value, after_value) = next size after_size in
    let rest = skip_fields fuel after_value in
    if complete fields then true else if after_value.has_failed then false else rest

-- A reader skips the types that it does not know.
pub skip_ext : Read Bool
skip_ext = do
  size ← read_u16
  ext ← next size
  λ r. (if r.has_failed then false else skip_fields (length ext + 1) (reader ext), r)

pub record Hello : Type 0 where
  pub from_instance : ℕ
  pub to_instance : ℕ
  pub app_id_hash : ℕ
  pub ver_major : ℕ
  pub ver_minor : ℕ
  pub name : List ℕ

pub record Accept : Type 0 where
  pub name : List ℕ

pub record Decline : Type 0 where
  pub reason : DeclineReason
  pub text : List ℕ

pub encode_hello : Hello → List ℕ
unfolding write_u16 write_u64 write_text write_ext
encode_hello h = write_ext (
    write_text h.name (
      write_u16 h.ver_minor (
        write_u16 h.ver_major
          (write_u64 h.app_id_hash (write_u64 h.to_instance (write_u64 h.from_instance []))))))

pub read_hello : Read Hello
read_hello = do
  from_instance ← read_u64
  to_instance ← read_u64
  app_id_hash ← read_u64
  ver_major ← read_u16
  ver_minor ← read_u16
  name ← read_text
  return (record {
    from_instance = from_instance;
    to_instance = to_instance;
    app_id_hash = app_id_hash;
    ver_major = ver_major;
    ver_minor = ver_minor;
    name = name;
  })

pub decode_hello : List ℕ → Option Hello
decode_hello body =
    let (h, after) = read_hello (reader body) in
    let (skipped, rest) = skip_ext after in
    if not skipped || not (complete rest) || h.from_instance == 0 then none else some h

pub encode_accept : Accept → List ℕ
unfolding write_text write_ext
encode_accept a = write_ext (write_text a.name [])

pub decode_accept : List ℕ → Option Accept
decode_accept body =
    let (name, after) = read_text (reader body) in
    let (skipped, rest) = skip_ext after in
    if not skipped || not (complete rest) then none else some (record { name = name })

pub encode_decline : Decline → List ℕ
unfolding write_text write_u8
encode_decline d = write_text d.text (write_u8 (reason_value d.reason) [])

pub decode_decline : List ℕ → Option Decline
decode_decline body =
    let (reason, after) = read_u8 (reader body) in
    let (text, rest) = read_text after in
    if not (complete rest)
    then none
    else some (record {
      reason = if reason == reason_value incompatible then incompatible else declined;
      text = text;
    })

-- A receiver has no use for the reason yet.
pub encode_close : ℕ → List ℕ
encode_close reason = reason ∷ []
