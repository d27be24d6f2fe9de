-- ===== src/Socks5Proxy/Pieces.antt =====
-- Answers of the server that arrive in pieces.
use gloox.Base.{
  ℕ, ◌<◌, ◌≡◌, refl, ap, Bool, not, ◌||◌, [], ◌++◌, append_assoc, Option, Bytes, length, arith,
  Bool-cases, inl, inr, lt→ltb,
}
use gloox.Base.Int.{ℤ}
use gloox.Socks5Proxy.{
  Proxy, Socks5State, s5_disconnected, s5_connecting, s5_negotiating, s5_authenticating,
  s5_connected,
}
use gloox.Socks5Proxy.Negotiation.{
  Reply, buffered, with_bytes, in_state, handle_received_data, choose_method, take_reply,
  take_status,
}

-- How many bytes a state of the handshake waits for.
abbrev pub awaited : Socks5State → ℕ
awaited s5_disconnected = 0
awaited s5_connecting = 2
awaited s5_negotiating = 6
awaited s5_authenticating = 2
awaited s5_connected = 0

buffered-append : (p : Proxy) (a b : Bytes) → buffered (buffered p a) b ≡ buffered p (a ++ b)
buffered-append p a b =
    ap (λ (x : Bytes). record p { handshake_buffer = x }) (append_assoc p.handshake_buffer a b)

with_bytes-short :
    (need : ℕ) (p : Proxy) (step : Proxy → Bytes → Reply)
    → length p.handshake_buffer < need
    → with_bytes need p step ≡ (p, [])
unfolding with_bytes
with_bytes-short need p step h = rw (lt→ltb (length p.handshake_buffer) need h) refl

module _ (resolve : Bytes → Option ℤ) (accepts : Bytes → Bool) where
  in_state-append :
      (s : Socks5State) (p : Proxy) (a b : Bytes)
      → length (p.handshake_buffer ++ a) < awaited s
      → (in_state resolve accepts s p a ≡ (buffered p a, []))
        × (in_state resolve accepts s (buffered p a) b ≡ in_state resolve accepts s p (a ++ b))
  unfolding in_state
  in_state-append s5_disconnected p a b h = absurd (omega arith)
  in_state-append s5_connecting p a b h = (
    with_bytes-short 2 (buffered p a) (choose_method resolve accepts) h,
    ap (λ (q : Proxy). with_bytes 2 q (choose_method resolve accepts)) (buffered-append p a b),
  )
  in_state-append s5_negotiating p a b h = (
    with_bytes-short 6 (buffered p a) take_reply h,
    ap (λ (q : Proxy). with_bytes 6 q take_reply) (buffered-append p a b),
  )
  in_state-append s5_authenticating p a b h = (
    with_bytes-short 2 (buffered p a) (take_status resolve accepts) h,
    ap (λ (q : Proxy). with_bytes 2 q (take_status resolve accepts)) (buffered-append p a b),
  )
  in_state-append s5_connected p a b h = absurd (omega arith)

  -- A piece that leaves the buffer shorter than the state of the handshake waits for, two bytes or
  -- six, makes no call, and the next piece has the effect that both in one have.
  pub handle_received_data-append :
      (p : Proxy) (a b : Bytes)
      → length (p.handshake_buffer ++ a) < awaited p.s5_state
      → ((handle_received_data resolve accepts p a).1 ≡ [])
        × (handle_received_data resolve accepts (handle_received_data resolve accepts p a).0 b
            ≡ handle_received_data resolve accepts p (a ++ b))
  unfolding handle_received_data
  handle_received_data-append p a b h =
      elim (Bool-cases (not p.has_connection || not p.has_handler)) [
        | inl e ↦ rw (e, e) (refl, refl)
        | inr e ↦ let k = in_state-append p.s5_state p a b h in rw (e, k.0) (refl, rw e k.1)
      ]
