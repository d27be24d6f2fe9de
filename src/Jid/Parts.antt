-- ===== src/Jid/Parts.antt =====
-- The parts of an address: reading them back from its text.
use gloox.Base.{
  ℕ, suc, ◌+◌, ◌≡◌, refl, sym, ap, ◌∙◌, ◌⊎◌, inl, inr, true, false, [], ◌∷◌, ◌++◌, append_assoc,
  subst, Option, none, some, Bytes, ◌==◌, All, arith, take, drop, find_byte, is_empty, length,
}
use gloox.Jid.{Prep, Jid, empty_jid, bare_of, full_of, set_domain, set_parts, set_jid}

-- No byte is `b`.
abbrev pub Lacks : ℕ → Bytes → Type 0
Lacks b = All (λ c. (c == b) ≡ false)

find_byte-none : (b : ℕ) (s : Bytes) → Lacks b s → find_byte b s ≡ none
unfolding find_byte
find_byte-none b [] h = refl
find_byte-none b (c ∷ s) h = rw (h.0, find_byte-none b s h.1) refl

find_byte-first :
    (b : ℕ) (s t : Bytes)
    → (b == b) ≡ true
    → Lacks b s
    → find_byte b (s ++ (b ∷ t)) ≡ some (length s)
unfolding find_byte
find_byte-first b [] t e h = rw e refl
find_byte-first b (c ∷ s) t e h = rw (h.0, find_byte-first b s t e h.1) refl

take_first : (s t : Bytes) → take (length s) (s ++ t) ≡ s
take_first [] t = refl
take_first (c ∷ s) t = ap (λ (x : Bytes). c ∷ x) (take_first s t)

drop_first : (b : ℕ) (s t : Bytes) → drop (length s + 1) (s ++ (b ∷ t)) ≡ t
drop_first b [] t = refl
drop_first b (c ∷ s) t =
    let e : suc (length s) + 1 ≡ suc (length s + 1) = omega arith in
    ap (λ (n : ℕ). drop n (c ∷ (s ++ (b ∷ t)))) e ∙ drop_first b s t

Lacks-append : (b : ℕ) (s t : Bytes) → Lacks b s → Lacks b t → Lacks b (s ++ t)
Lacks-append b [] t h k = k
Lacks-append b (c ∷ s) t h k = (h.0, Lacks-append b s t h.1 k)

is_empty-append : (s t : Bytes) → is_empty s ≡ false → is_empty (s ++ t) ≡ false
is_empty-append [] t e = cc
is_empty-append (c ∷ s) t e = refl

-- The object that the constructor `JID( jid )` calls `setJID` on.
abbrev pub new_jid : Jid
new_jid = record empty_jid { valid = true }

-- Parts that preparation leaves alone and whose text can be split again.
pub record IsAddress (p : Prep) (u s r : Bytes) : Type 0 where
  pub username_ok :
      ((u ≡ []) × Lacks b'@' s × Lacks b'@' r)
      ⊎ ((is_empty u ≡ false) × Lacks b'@' u × (p.nodeprep u ≡ some u))
  pub server_filled : is_empty s ≡ false
  pub server_apart : Lacks b'/' s
  pub server_ok : p.nameprep s ≡ some s
  pub resource_ok : (r ≡ []) ⊎ ((is_empty r ≡ false) × (p.resourceprep r ≡ some r))

abbrev pub address : Bytes → Bytes → Bytes → Jid
address u s r = record {
  resource = r;
  username = u;
  server = s;
  server_raw = s;
  bare = bare_of u s;
  full = full_of (bare_of u s) r;
  valid = true;
}

module _ (p : Prep) (u s r : Bytes) (h : IsAddress p u s r) where
  named : Jid
  named = record new_jid { username = u }

  split_domain :
      (r' : Bytes)
      → r ≡ r'
      → set_domain p (full_of s r') (find_byte b'/' (full_of s r')) named ≡ (address u s r', true)
  unfolding set_domain named
  split_domain [] e = rw (find_byte-none b'/' s h.server_apart, h.server_ok) refl
  split_domain (c ∷ t) e =
      rw
        (
          find_byte-first b'/' s (c ∷ t) refl h.server_apart,
          take_first s (b'/' ∷ c ∷ t),
          drop_first b'/' s (c ∷ t),
          h.server_ok,
          prepped,
        )
        refl
    where
      prepped : p.resourceprep (c ∷ t) ≡ some (c ∷ t)
      prepped = elim (h.resource_ok) [
        | inl n ↦ cc
        | inr k ↦ sym (ap p.resourceprep e) ∙ k.1 ∙ ap some e
      ]

  domain-Lacks : Lacks b'@' s → Lacks b'@' r → (r' : Bytes) → r ≡ r' → Lacks b'@' (full_of s r')
  domain-Lacks hs hr [] e = hs
  domain-Lacks hs hr (c ∷ t) e =
      Lacks-append b'@' s (b'/' ∷ c ∷ t) hs (refl, subst (Lacks b'@') e hr)

  domain_filled : (r' : Bytes) → is_empty (full_of s r') ≡ false
  domain_filled [] = h.server_filled
  domain_filled (c ∷ t) = is_empty-append s (b'/' ∷ c ∷ t) h.server_filled

  spelled :
      is_empty u ≡ false → (r' : Bytes) → full_of (bare_of u s) r' ≡ u ++ (b'@' ∷ full_of s r')
  spelled e [] = rw e refl
  spelled e (c ∷ t) = rw e (append_assoc u (b'@' ∷ s) (b'/' ∷ c ∷ t))

  of_text :
      (x : Bytes) (o : Option ℕ)
      → is_empty x ≡ false
      → find_byte b'@' x ≡ o
      → set_jid p x new_jid ≡ set_parts p x o new_jid
  unfolding set_jid
  of_text [] o e f = cc
  of_text (c ∷ x) o e f = ap (λ (n : Option ℕ). set_parts p (c ∷ x) n new_jid) f

  anonymous :
      u ≡ []
      → Lacks b'@' s
      → Lacks b'@' r
      → set_jid p (full_of (bare_of u s) r) new_jid ≡ (address u s r, true)
  unfolding set_parts named
  anonymous e hs hr =
      ap (λ (x : Bytes). set_jid p (full_of (bare_of x s) r) new_jid) e
      ∙ of_text (full_of s r) none (domain_filled r)
          (find_byte-none b'@' (full_of s r) (domain-Lacks hs hr r refl))
      ∙ ap
          (λ (x : Bytes).
            set_domain p (full_of s r) (find_byte b'/' (full_of s r))
              (record new_jid { username = x }))
          (sym e)
      ∙ split_domain r refl

  of_user :
      is_empty u ≡ false
      → Lacks b'@' u
      → p.nodeprep u ≡ some u
      → set_jid p (full_of (bare_of u s) r) new_jid ≡ (address u s r, true)
  unfolding set_parts named
  of_user e k prepped =
      ap (λ (x : Bytes). set_jid p x new_jid) (spelled e r)
      ∙ of_text (u ++ (b'@' ∷ full_of s r)) (some (length u))
          (is_empty-append u (b'@' ∷ full_of s r) e) (find_byte-first b'@' u (full_of s r) refl k)
      ∙ rw (take_first u (b'@' ∷ full_of s r), drop_first b'@' u (full_of s r), prepped)
          (split_domain r refl)

  -- Parts that preparation leaves as they are, the server among them not empty and with no '/' in it, are
  -- what a new address read from their text `user@server/resource` has, and reading succeeds. A
  -- user name has no '@'; without a user name neither the server nor the resource has one.
  pub set_jid_lem : set_jid p (full_of (bare_of u s) r) new_jid ≡ (address u s r, true)
  set_jid_lem = elim (h.username_ok) [ inl k ↦ anonymous k.0 k.1 k.2 | inr k ↦ of_user k.0 k.1 k.2 ]
