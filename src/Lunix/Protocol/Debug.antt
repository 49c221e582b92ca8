-- ===== src/Lunix/Protocol/Debug.antt =====
-- The limit that LUNIX_DEBUG sets in `lunix_protocol_parse_state` of lunix-protocol.c.
use operating_systems_ntua.Prelude.{
  ℕ, ◌+◌, ◌<◌, ◌≡◌, refl, Bool, true, false, List, [], ◌∷◌, arith, ◌==◌, length,
}
use operating_systems_ntua.Lunix.Protocol.{State, parse_byte, parse_loop, parse_state}

parse_loop_short :
    (specials : Bool) (iter iter' : ℕ) (st : State) (bytes : List ℕ)
    → iter + length bytes < 50
    → parse_loop true specials iter st bytes ≡ parse_loop false specials iter' st bytes
unfolding parse_loop
parse_loop_short specials iter iter' st [] h = refl
parse_loop_short specials iter iter' st (c ∷ cs) h =
    let low : (iter + 1 == 50) ≡ false = ground (arith, h) in
    let rest =
      parse_loop_short specials (iter + 1) (iter' + 1) (parse_byte specials st c) cs
        (omega (arith, h)) in
    rw (low, rest) refl

-- With LUNIX_DEBUG set, a call that finds fewer than 50 unread bytes does what it does without.
pub parse_state_debug :
    (specials : Bool) (st : State) (bytes : List ℕ)
    → length bytes < 50
    → parse_state true specials st bytes ≡ parse_state false specials st bytes
unfolding parse_state
parse_state_debug specials st bytes h = parse_loop_short specials 0 0 st bytes (omega (arith, h))
