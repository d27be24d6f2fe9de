-- ===== src/Jid/Consistent.antt =====
-- The strings of an address agree with its parts.
use gloox.Base.{
  ℕ, ◌+◌, ◌≡◌, refl, Bool, true, false, [], ◌∷◌, Option, none, some, Bytes, if◌then◌else◌, take,
  drop, find_byte,
}
use gloox.Jid.{
  Prep, Jid, bare_of, full_of, set_strings, take_username, take_server, take_resource, set_username,
  set_server, set_resource, after_resource, after_server, set_domain, set_parts, set_jid,
}

pub record IsConsistent (j : Jid) : Type 0 where
  pub bare_ok : j.bare ≡ bare_of j.username j.server
  pub full_ok : j.full ≡ full_of j.bare j.resource

set_strings-IsConsistent : (j : Jid) → IsConsistent (set_strings j)
set_strings-IsConsistent j = record { bare_ok = refl; full_ok = refl }

module _ (p : Prep) where
  -- Whether or not the part is accepted, a consistent address stays consistent under `setUsername`,
  -- `setServer` and `setResource`.
  pub setters-IsConsistent :
      (j : Jid) (s : Bytes)
      → IsConsistent j
      → IsConsistent (set_username p s j)
        × IsConsistent (set_server p s j)
        × IsConsistent (set_resource p s j)
  unfolding set_username set_server set_resource
  setters-IsConsistent j s h = (
    set_strings-IsConsistent (take_username (p.nodeprep s) j),
    set_strings-IsConsistent (take_server (p.nameprep s) (record j { server_raw = s })),
    resource (p.resourceprep s),
  )
    where
      resource :
          (o : Option Bytes)
          → IsConsistent (record (take_resource o j) {
            full = full_of (take_resource o j).bare (take_resource o j).resource;
          })
      resource none = record { bare_ok = h.bare_ok; full_ok = refl }
      resource (some r) = record { bare_ok = h.bare_ok; full_ok = refl }

-- If it succeeds, the address that it leaves is consistent.
abbrev IsGood : Jid × Bool → Type 0
IsGood r = r.1 ≡ true → IsConsistent r.0

IsGood-if : (b : Bool) (r : Jid × Bool) (j : Jid) → IsGood r → IsGood (if b then r else (j, false))
IsGood-if true r j h = h
IsGood-if false r j h = λ e. cc

module _ (p : Prep) where
  after_server-IsGood : (o : Option Bytes) (j : Jid) → IsGood (after_server p o j)
  after_server-IsGood none j =
      IsGood-if j.valid (set_strings j, true) j (λ e. set_strings-IsConsistent j)
  after_server-IsGood (some r) j =
      IsGood-if j.valid (after_resource p k) j
        (IsGood-if k.valid (set_strings k, true) k (λ e. set_strings-IsConsistent k))
    where
      k : Jid
      k = take_resource (p.resourceprep r) j

  set_domain-IsGood : (s : Bytes) (o : Option ℕ) (j : Jid) → IsGood (set_domain p s o j)
  unfolding set_domain
  set_domain-IsGood s none j =
      after_server-IsGood none (take_server (p.nameprep s) (record j { server_raw = s }))
  set_domain-IsGood s (some n) j =
      after_server-IsGood (some (drop (n + 1) s))
        (take_server (p.nameprep (take n s)) (record j { server_raw = take n s }))

  set_parts-IsGood : (s : Bytes) (o : Option ℕ) (j : Jid) → IsGood (set_parts p s o j)
  unfolding set_parts
  set_parts-IsGood s none j = set_domain-IsGood s (find_byte b'/' s) j
  set_parts-IsGood s (some n) j =
      IsGood-if k.valid (set_domain p (drop (n + 1) s) (find_byte b'/' (drop (n + 1) s)) k) k
        (set_domain-IsGood (drop (n + 1) s) (find_byte b'/' (drop (n + 1) s)) k)
    where
      k : Jid
      k = take_username (p.nodeprep (take n s)) j

  -- If `setJID` succeeds, the bare and the full address are those of the parts, whatever the
  -- address was before.
  pub set_jid-IsConsistent :
      (s : Bytes) (j : Jid) → (set_jid p s j).1 ≡ true → IsConsistent (set_jid p s j).0
  unfolding set_jid
  set_jid-IsConsistent [] j = λ e. cc
  set_jid-IsConsistent (c ∷ s) j = set_parts-IsGood (c ∷ s) (find_byte b'@' (c ∷ s)) j
