-- ===== src/Jid.antt =====
-- Class `JID` of src/jid.cpp and src/jid.h, and the functions of src/prep.cpp that it calls.
pub mod Consistent
pub mod Escape
pub mod Parts
pub mod Tests
use gloox.Base.{
  ℕ, ◌+◌, Bool, true, false, ◌||◌, List, [], ◌∷◌, ◌++◌, Option, none, some, if◌then◌else◌, Bytes,
  codes, find_byte, is_empty, length, ltb, take, drop,
}

-- `nodeprep`, `nameprep` and `resourceprep`: `none` where they refuse and leave `out` as it is.
pub record Prep : Type 0 where
  pub nodeprep : Bytes → Option Bytes
  pub nameprep : Bytes → Option Bytes
  pub resourceprep : Bytes → Option Bytes

-- `prepare` over `stringprep` of libidn with one of its profiles, for a text with no NUL byte.
abbrev pub prepare : (Bytes → Option Bytes) → Bytes → Option Bytes
prepare stringprep s = if is_empty s || ltb 1023 (length s) then none else stringprep s

-- With libidn, whose three profiles are given.
abbrev pub with_libidn :
    (Bytes → Option Bytes) → (Bytes → Option Bytes) → (Bytes → Option Bytes) → Prep
with_libidn node name resource = record {
  nodeprep = prepare node;
  nameprep = prepare name;
  resourceprep = prepare resource;
}

-- Without libidn only the length is looked at.
abbrev pub unprepared : Bytes → Option Bytes
unprepared s = if ltb 1023 (length s) then none else some s

abbrev pub without_libidn : Prep
without_libidn = record { nodeprep = unprepared; nameprep = unprepared; resourceprep = unprepared }

pub record Jid : Type 0 where
  pub resource : Bytes
  pub username : Bytes
  pub server : Bytes
  pub server_raw : Bytes
  pub bare : Bytes
  pub full : Bytes
  pub valid : Bool

-- `JID()`.
abbrev pub empty_jid : Jid
empty_jid = record {
  resource = [];
  username = [];
  server = [];
  server_raw = [];
  bare = [];
  full = [];
  valid = false;
}

abbrev pub bare_of : Bytes → Bytes → Bytes
bare_of username server = if is_empty username then server else username ++ (b'@' ∷ server)

abbrev pub full_of : Bytes → Bytes → Bytes
full_of bare resource = if is_empty resource then bare else bare ++ (b'/' ∷ resource)

-- `JID::setBare`, `JID::setFull` and `JID::setStrings`.
abbrev pub set_bare : Jid → Jid
set_bare j = record j { bare = bare_of j.username j.server }

abbrev pub set_full : Jid → Jid
set_full j = record j { full = full_of j.bare j.resource }

abbrev pub set_strings : Jid → Jid
set_strings j = set_full (set_bare j)

abbrev pub take_username : Option Bytes → Jid → Jid
take_username none j = record j { valid = false }
take_username (some u) j = record j { username = u; valid = true }

abbrev pub take_server : Option Bytes → Jid → Jid
take_server none j = record j { valid = false }
take_server (some s) j = record j { server = s; valid = true }

abbrev pub take_resource : Option Bytes → Jid → Jid
take_resource none j = record j { valid = false }
take_resource (some r) j = record j { resource = r; valid = true }

module _ (p : Prep) where
  -- `JID::setUsername`, `JID::setServer` and `JID::setResource`; the result is `valid`.
  unfoldable pub set_username : Bytes → Jid → Jid
  set_username u j = set_strings (take_username (p.nodeprep u) j)

  unfoldable pub set_server : Bytes → Jid → Jid
  set_server s j = set_strings (take_server (p.nameprep s) (record j { server_raw = s }))

  unfoldable pub set_resource : Bytes → Jid → Jid
  set_resource r j = set_full (take_resource (p.resourceprep r) j)

  -- The rest of `setJID` behind the resource, the server and the user name.
  abbrev pub after_resource : Jid → Jid × Bool
  after_resource j = if j.valid then (set_strings j, true) else (j, false)

  abbrev pub after_server : Option Bytes → Jid → Jid × Bool
  after_server none j = if j.valid then (set_strings j, true) else (j, false)
  after_server (some r) j =
      if j.valid then after_resource (take_resource (p.resourceprep r) j) else (j, false)

  -- The text behind the '@', or all of it: the server up to a '/', and the resource behind that.
  unfoldable pub set_domain : Bytes → Option ℕ → Jid → Jid × Bool
  set_domain s none j = after_server none (take_server (p.nameprep s) (record j { server_raw = s }))
  set_domain s (some n) j =
      after_server (some (drop (n + 1) s))
        (take_server (p.nameprep (take n s)) (record j { server_raw = take n s }))

  -- `JID::setJID`, with the place of the first '@'.
  unfoldable pub set_parts : Bytes → Option ℕ → Jid → Jid × Bool
  unfolding set_domain
  set_parts s none j = set_domain s (find_byte b'/' s) j
  set_parts s (some n) j =
      let k = take_username (p.nodeprep (take n s)) j in
      if k.valid
      then set_domain (drop (n + 1) s) (find_byte b'/' (drop (n + 1) s)) k
      else (k, false)

  unfoldable pub set_jid : Bytes → Jid → Jid × Bool
  unfolding set_parts
  set_jid s j = if is_empty s then (empty_jid, false) else set_parts s (find_byte b'@' s) j
