-- ===== src/HttpProxy/Answer.antt =====
-- The proxy's answer, which arrives in pieces.
use gloox.Base.{
  ℕ, zero, suc, ◌-◌, ◌≤◌, ◌≡◌, refl, sym, ap, subst, ◌∙◌, ◌||◌, Bool-cases, inl, inr, is_empty,
  equal_iff, length-drop, Bool, true, false, not, ◌&&◌, List, [], ◌∷◌, ◌++◌, append_assoc, map,
  Option, none, some, Bytes, codes, equal, equal_refl, length, length-append, take, drop, ltb,
  arith,
}
use gloox.Connection.{connecting, connected}
use gloox.Socks5Proxy.{Call, told_connect, told_data}
use gloox.HttpProxy.{
  HttpProxy, crlf, answered, after_calls, opens, stands_at, handle_received_data, run,
}

-- The beginning of an answer that grants the connection.
abbrev pub granted : Bool → Bytes
granted false = codes "HTTP/1.0 200"
granted true = codes "HTTP/1.1 200"

-- A proxy that waits for the answer and has these bytes of it.
abbrev pub waiting : HttpProxy → Bytes → HttpProxy
waiting p text = record p { has_handler = true; state = connecting; handshake_buffer = text }

abbrev pub established : HttpProxy → HttpProxy
established p = record p { has_handler = true; state = connected; handshake_buffer = [] }

-- The text ends with the bytes of `part`.
abbrev pub ends_with : Bytes → Bytes → Bool
ends_with part [] = is_empty part
ends_with part (c ∷ text) = equal (c ∷ text) part || ends_with part text

-- After no piece the text so far ends with an empty line.
abbrev pub unfinished : Bytes → List Bytes → Bool
unfinished text [] = true
unfinished text (piece ∷ pieces) =
    not (ends_with (crlf ++ crlf) (text ++ piece)) && unfinished (text ++ piece) pieces

abbrev pub joined : Bytes → List Bytes → Bytes
joined text [] = text
joined text (piece ∷ pieces) = joined (text ++ piece) pieces

not_short : (v : Bool) (r : Bytes) → ltb (length (granted v ++ r)) 9 ≡ false
not_short false r = ground arith
not_short true r = ground arith

not_and : {a b : Bool} → not a && b ≡ true → (a ≡ false) × (b ≡ true)
not_and {a = true} {b = b} e = ground arith
not_and {a = false} {b = b} e = (refl, e)

answered-granted :
    (p : HttpProxy) (v : Bool) (r : Bytes)
    → opens (granted v ++ r) ≡ false
    → answered (waiting p (granted v ++ r)) ≡ some (waiting p (granted v ++ r), [])
unfolding answered stands_at equal
answered-granted p false r e = rw (e, not_short false r) refl
answered-granted p true r e = rw (e, not_short true r) refl

answered-opens :
    (p : HttpProxy) (text : Bytes)
    → opens text ≡ true
    → answered (waiting p text) ≡ some (established p, told_connect ∷ [])
unfolding answered
answered-opens p text e = rw e refl

run-established :
    (p : HttpProxy) (ds : List Bytes)
    → run (established p) ds ≡ some (established p, map told_data ds)
unfolding run handle_received_data
run-established p [] = refl
run-established p (d ∷ ds) = ap (after_calls (told_data d ∷ [])) (run-established p ds)

drop-length : (pre part : Bytes) → drop (length pre) (pre ++ part) ≡ part
drop-length [] part = refl
drop-length (c ∷ pre) part = drop-length pre part

stands_at-end :
    (pre : Bytes)
    → stands_at (length (pre ++ (crlf ++ crlf)) - 4) (crlf ++ crlf) (pre ++ (crlf ++ crlf)) ≡ true
unfolding stands_at
stands_at-end pre =
    ap (λ (n : ℕ). equal (take 4 (drop n (pre ++ (crlf ++ crlf)))) (crlf ++ crlf))
      (omega (length-append pre (crlf ++ crlf), arith))
    ∙ ap (λ (text : Bytes). equal (take 4 text) (crlf ++ crlf)) (drop-length pre (crlf ++ crlf))
    ∙ equal_refl (crlf ++ crlf)

or_true : (a : Bool) → (a || true) ≡ true
or_true true = refl
or_true false = refl

ends_with-drop : (n : ℕ) (text part : Bytes) → drop n text ≡ part → ends_with part text ≡ true
unfolding equal
ends_with-drop zero [] part e = subst (λ (q : Bytes). is_empty q ≡ true) e refl
ends_with-drop (suc n) [] part e = subst (λ (q : Bytes). is_empty q ≡ true) e refl
ends_with-drop zero (c ∷ text) part e = rw ((equal_iff (c ∷ text) part).1 e) refl
ends_with-drop (suc n) (c ∷ text) part e =
    rw (ends_with-drop n text part e) (or_true (equal (c ∷ text) part))

take_all : (n : ℕ) (xs : Bytes) → length xs ≤ n → take n xs ≡ xs
take_all zero [] e = refl
take_all zero (x ∷ xs) e = absurd (omega arith)
take_all (suc n) [] e = refl
take_all (suc n) (x ∷ xs) e = ap (◌∷◌ x) (take_all n xs (omega arith))

-- What stands in the last four places of the text is its end.
stands_at-ends_with :
    (text : Bytes)
    → stands_at (length text - 4) (crlf ++ crlf) text ≡ true
    → ends_with (crlf ++ crlf) text ≡ true
unfolding stands_at
stands_at-ends_with text e = ends_with-drop (length text - 4) text (crlf ++ crlf) (
    sym
      (take_all 4 (drop (length text - 4) text) (omega (arith, length-drop (length text - 4) text)))
    ∙ (equal_iff (take 4 (drop (length text - 4) text)) (crlf ++ crlf)).0 e)

and_right : (a : Bool) {b : Bool} → a && b ≡ true → b ≡ true
and_right true e = e
and_right false e = cc

opens-ends_with : (text : Bytes) → opens text ≡ true → ends_with (crlf ++ crlf) text ≡ true
unfolding opens
opens-ends_with text e = stands_at-ends_with text (
    and_right (stands_at 0 (codes "HTTP/1.0 200") text || stands_at 0 (codes "HTTP/1.1 200") text)
      e)

not_opens : (text : Bytes) → ends_with (crlf ++ crlf) text ≡ false → opens text ≡ false
not_opens text e = elim (Bool-cases (opens text)) [
  | inl o ↦ let f = opens-ends_with text o in absurd (cc)
  | inr o ↦ o
]

opens-granted : (v : Bool) (body : Bytes) → opens (granted v ++ (body ++ (crlf ++ crlf))) ≡ true
unfolding opens stands_at equal
opens-granted false body = stands_at-end (granted false ++ body)
opens-granted true body = stands_at-end (granted true ++ body)

run-step :
    (p q : HttpProxy) (piece : Bytes) (pieces : List Bytes) (calls : List Call)
    → handle_received_data p piece ≡ some (q, calls)
    → run p (piece ∷ pieces) ≡ after_calls calls (run q pieces)
unfolding run
run-step p q piece pieces calls e = rw (run, e) refl

handle-waiting :
    (p : HttpProxy) (text piece : Bytes)
    → handle_received_data (waiting p text) piece ≡ answered (waiting p (text ++ piece))
unfolding handle_received_data
handle-waiting p text piece = refl

-- A piece of the answer that does not end its header makes no call.
handle-unfinished :
    (p : HttpProxy) (v : Bool) (r piece : Bytes)
    → opens ((granted v ++ r) ++ piece) ≡ false
    → handle_received_data (waiting p (granted v ++ r)) piece
      ≡ some (waiting p (granted v ++ (r ++ piece)), [])
handle-unfinished p v r piece e =
    handle-waiting p (granted v ++ r) piece
    ∙ ap (λ (text : Bytes). answered (waiting p text)) (append_assoc (granted v) r piece)
    ∙ answered-granted p v (r ++ piece)
        (subst (λ (text : Bytes). opens text ≡ false) (append_assoc (granted v) r piece) e)

run-last :
    (p : HttpProxy) (text last : Bytes) (ds : List Bytes)
    → opens (text ++ last) ≡ true
    → run (waiting p text) (last ∷ ds) ≡ some (established p, told_connect ∷ map told_data ds)
run-last p text last ds o =
    run-step (waiting p text) (established p) last ds (told_connect ∷ [])
      (handle-waiting p text last ∙ answered-opens p (text ++ last) o)
    ∙ ap (after_calls (told_connect ∷ [])) (run-established p ds)

after_no_calls : (r : Option (HttpProxy × List Call)) → after_calls [] r ≡ r
after_no_calls none = refl
after_no_calls (some r) = refl

run-waiting :
    (p : HttpProxy) (v : Bool) (r : Bytes) (ms : List Bytes) (last : Bytes) (ds : List Bytes)
    → unfinished (granted v ++ r) ms ≡ true
    → opens (joined (granted v ++ r) ms ++ last) ≡ true
    → run (waiting p (granted v ++ r)) (ms ++ (last ∷ ds))
      ≡ some (established p, told_connect ∷ map told_data ds)
run-waiting p v r [] last ds u o = run-last p (granted v ++ r) last ds o
run-waiting p v r (m ∷ ms) last ds u o =
    let q = append_assoc (granted v) r m in
    run-step (waiting p (granted v ++ r)) (waiting p (granted v ++ (r ++ m))) m (ms ++ (last ∷ ds))
      [] (handle-unfinished p v r m (not_opens ((granted v ++ r) ++ m) (not_and u).0))
    ∙ after_no_calls (run (waiting p (granted v ++ (r ++ m))) (ms ++ (last ∷ ds)))
    ∙ run-waiting p v (r ++ m) ms last ds
        (subst (λ (text : Bytes). unfinished text ms ≡ true) q (not_and u).1)
        (subst (λ (text : Bytes). opens (joined text ms ++ last) ≡ true) q o)

-- An answer that grants the connection and arrives in pieces, the first of which has its beginning
-- of twelve bytes, the last of which ends it with an empty line, and before which none ends at such a
-- line, tells the handler once that the connection is there; each later piece is handed to the
-- handler, one by one.
pub run-Connects :
    (p : HttpProxy) (v : Bool) (r : Bytes) (ms : List Bytes) (last body : Bytes) (ds : List Bytes)
    → unfinished [] ((granted v ++ r) ∷ ms) ≡ true
    → joined (granted v ++ r) ms ++ last ≡ granted v ++ (body ++ (crlf ++ crlf))
    → run (waiting p []) ((granted v ++ r) ∷ (ms ++ (last ∷ ds)))
      ≡ some (established p, told_connect ∷ map told_data ds)
run-Connects p v r ms last body ds u e =
    run-step (waiting p []) (waiting p (granted v ++ r)) (granted v ++ r) (ms ++ (last ∷ ds)) [] (
      handle-waiting p [] (granted v ++ r)
      ∙ answered-granted p v r (not_opens (granted v ++ r) (not_and u).0))
    ∙ after_no_calls (run (waiting p (granted v ++ r)) (ms ++ (last ∷ ds)))
    ∙ run-waiting p v r ms last ds (not_and u).1 (ap opens e ∙ opens-granted v body)
