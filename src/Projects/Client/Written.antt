-- ===== src/Projects/Client/Written.antt =====
-- Arguments of tcp_client.c, written from options.
use operating_systems_ntua.Prelude.{
  ℕ, zero, suc, ◌+◌, ◌*◌, ◌≤◌, ◌≡◌, refl, sym, ap, ◌∙◌, Bool, true, false, not, ◌&&◌, ◌||◌, some,
  List, [], ◌∷◌, arith, leb, ◌==◌, if◌then◌else◌, length, take, same_bytes,
}
use operating_systems_ntua.Prelude.Int.{ℤ}
use operating_systems_ntua.Projects.Client.{
  Settings, dashes, word_host, word_port, word_debug, Scan, Mode, counted, scan, with_count,
  start_scan, two, parse_args,
}

-- An option of the client
pub data Opt : Type 0 where
  host_is port_is : List ℕ → Opt
  debug_on : Opt

abbrev pub write_args : List Opt → List (List ℕ)
write_args [] = []
write_args (host_is v ∷ opts) = word_host ∷ v ∷ write_args opts
write_args (port_is v ∷ opts) = word_port ∷ v ∷ write_args opts
write_args (debug_on ∷ opts) = word_debug ∷ write_args opts

-- A value that does not begin with two dashes
abbrev pub is_plain : List ℕ → Bool
is_plain v = not (same_bytes (take 2 v) dashes)

abbrev pub all_plain : List Opt → Bool
all_plain [] = true
all_plain (host_is v ∷ opts) = is_plain v && all_plain opts
all_plain (port_is v ∷ opts) = is_plain v && all_plain opts
all_plain (debug_on ∷ opts) = all_plain opts

-- How many options have values, and how many have none.
abbrev pub valued : List Opt → ℕ
valued [] = 0
valued (host_is v ∷ opts) = valued opts + 1
valued (port_is v ∷ opts) = valued opts + 1
valued (debug_on ∷ opts) = valued opts

abbrev pub debugs : List Opt → ℕ
debugs [] = 0
debugs (host_is v ∷ opts) = debugs opts
debugs (port_is v ∷ opts) = debugs opts
debugs (debug_on ∷ opts) = debugs opts + 1

length-write_args : (opts : List Opt) → length (write_args opts) ≡ 2 * valued opts + debugs opts
length-write_args [] = refl
length-write_args (host_is v ∷ opts) = omega (arith, length-write_args opts)
length-write_args (port_is v ∷ opts) = omega (arith, length-write_args opts)
length-write_args (debug_on ∷ opts) = omega (arith, length-write_args opts)

empty-counts : (opts : List Opt) → valued opts ≡ 0 → debugs opts ≡ 0 → opts ≡ []
empty-counts [] a b = refl
empty-counts (host_is v ∷ opts) a b = ground (arith, a)
empty-counts (port_is v ∷ opts) a b = ground (arith, a)
empty-counts (debug_on ∷ opts) a b = ground (arith, b)

plain-word :
    (v : List ℕ) (c d : ℕ) (w : List ℕ)
    → is_plain v ≡ true
    → same_bytes v (b'-' ∷ b'-' ∷ c ∷ d ∷ w) ≡ false
plain-word [] c d w h = refl
plain-word (x ∷ []) c d w h = ground arith
plain-word (x ∷ y ∷ v) c d w h = ground (arith, h)

plain-starts :
    (v : List ℕ) (c d e f : ℕ) (w : List ℕ)
    → is_plain v ≡ true
    → same_bytes (take 6 v) (b'-' ∷ b'-' ∷ c ∷ d ∷ e ∷ f ∷ w) ≡ false
plain-starts [] c d e f w h = refl
plain-starts (x ∷ []) c d e f w h = ground arith
plain-starts (x ∷ y ∷ v) c d e f w h = ground (arith, h)

module _ (atoi : List ℕ → ℤ) where
  abbrev pub apply : Opt → Settings → Settings
  apply (host_is v) s = record s { host = v }
  apply (port_is v) s = record s { port = atoi v }
  apply debug_on s = record s { debug = true }

  -- The settings that options in a row make
  abbrev pub settle : List Opt → Settings → Settings
  settle [] s = s
  settle (o ∷ opts) s = settle opts (apply o s)

  scan-plain :
      (m : Mode) (v : List ℕ) (rest : List (List ℕ)) (c : Scan)
      → is_plain v ≡ true
      → scan atoi m (v ∷ rest) c ≡ scan atoi m rest c
  unfolding scan
  scan-plain m v rest c h =
      let a = plain-word v b'h' b'o' (b's' ∷ b't' ∷ []) h in
      let b = plain-word v b'p' b'o' (b'r' ∷ b't' ∷ []) h in
      let d = plain-word v b'd' b'e' (b'b' ∷ b'u' ∷ b'g' ∷ []) h in ground (arith, a, b, d)

  -- Whether the loops of a mode have room for options
  abbrev room : Mode → Bool → List Opt → Bool
  room m flag opts =
      (not m.single || leb (valued opts + (if flag then 1 else 0)) 1)
      && (m.with_debug || debugs opts == 0)

  -- What a scan comes to
  record Scanned (m : Mode) (opts : List Opt) (c : Scan) : Type 0 where
    final : Scan
    scans : scan atoi m (write_args opts) c ≡ some final
    makes : final.settings ≡ settle opts c.settings
    counts : final.count ≡ c.count + (valued opts + debugs opts)

  scan-host :
      (m : Mode) (v : List ℕ) (rest : List (List ℕ)) (c : Scan)
      → is_plain v ≡ true
      → m.single && c.arg_flag ≡ false
      → scan atoi m (word_host ∷ v ∷ rest) c
        ≡ scan atoi m rest (counted atoi m (record c.settings { host = v }) c)
  unfolding scan
  scan-host m v rest c h one =
      let a = plain-starts v b'p' b'o' b'r' b't' [] h in
      let d = plain-starts v b'd' b'e' b'b' b'u' [] h in
      let e : m.with_debug && false ≡ false = ground arith in
      rw (a, d, one, e) (scan-plain m v rest (counted atoi m (record c.settings { host = v }) c) h)

  scan-port :
      (m : Mode) (v : List ℕ) (rest : List (List ℕ)) (c : Scan)
      → is_plain v ≡ true
      → m.single && c.arg_flag ≡ false
      → scan atoi m (word_port ∷ v ∷ rest) c
        ≡ scan atoi m rest (counted atoi m (record c.settings { port = atoi v }) c)
  unfolding scan
  scan-port m v rest c h one =
      let a = plain-starts v b'h' b'o' b's' b't' [] h in
      let d = plain-starts v b'd' b'e' b'b' b'u' [] h in
      let e : m.with_debug && false ≡ false = ground arith in
      rw (a, d, one, e)
        (scan-plain m v rest (counted atoi m (record c.settings { port = atoi v }) c) h)

  scan-debug :
      (m : Mode) (rest : List (List ℕ)) (c : Scan)
      → m.with_debug ≡ true
      → scan atoi m (word_debug ∷ rest) c
        ≡ scan atoi m rest
            (record c { settings = record c.settings { debug = true }; count = c.count + 1 })
  unfolding scan
  scan-debug m rest c d =
      ap
        (λ b. scan atoi m rest (
          if b && true
          then record c { settings = record c.settings { debug = true }; count = c.count + 1 }
          else c))
        d

  scan-written :
      (m : Mode) (opts : List Opt) (c : Scan)
      → all_plain opts ≡ true
      → room m c.arg_flag opts ≡ true
      → Scanned m opts c
  unfolding scan
  scan-written m [] c p r = record { final = c; scans = refl; makes = refl; counts = omega arith }
  scan-written m (host_is v ∷ opts) c p r =
      let c' = counted atoi m (record c.settings { host = v }) c in
      let more = scan-written m opts c' (ground (arith, p)) (ground (arith, r)) in
      record {
        final = more.final;
        scans =
            scan-host m v (write_args opts) c (ground (arith, p)) (ground (arith, r)) ∙ more.scans;
        makes = more.makes;
        counts = omega (arith, more.counts);
      }
  scan-written m (port_is v ∷ opts) c p r =
      let c' = counted atoi m (record c.settings { port = atoi v }) c in
      let more = scan-written m opts c' (ground (arith, p)) (ground (arith, r)) in
      record {
        final = more.final;
        scans =
            scan-port m v (write_args opts) c (ground (arith, p)) (ground (arith, r)) ∙ more.scans;
        makes = more.makes;
        counts = omega (arith, more.counts);
      }
  scan-written m (debug_on ∷ opts) c p r =
      let c' : Scan = record c {
        settings = record c.settings { debug = true };
        count = c.count + 1;
      } in
      let more = scan-written m opts c' p (ground (arith, r)) in
      record {
        final = more.final;
        scans = scan-debug m (write_args opts) c (ground (arith, r)) ∙ more.scans;
        makes = more.makes;
        counts = omega (arith, more.counts);
      }

  -- The check of the count at the end, behind the program's name
  counted-written :
      (m : Mode) (opts : List Opt) (name : List ℕ) (s : Settings) (n : ℕ)
      → is_plain name ≡ true
      → all_plain opts ≡ true
      → room m false opts ≡ true
      → n ≡ valued opts + debugs opts
      → with_count atoi n (scan atoi m (name ∷ write_args opts) (start_scan atoi s))
        ≡ some (settle opts s)
  counted-written m opts name s n q p r e =
      let done = scan-written m opts (start_scan atoi s) p r in
      let all : (done.final.count == n) ≡ true = ground (arith, done.counts, e) in
      ap (with_count atoi n)
        (scan-plain m name (write_args opts) (start_scan atoi s) q ∙ done.scans)
      ∙ rw all (ap some done.makes)

  two-written :
      (opts : List Opt) (name : List ℕ) (s : Settings)
      → valued opts ≡ 0
      → debugs opts ≡ 1
      → two atoi (name ∷ write_args opts) s ≡ some (settle opts s)
  two-written [] name s a b = ground (arith, b)
  two-written (host_is v ∷ opts) name s a b = ground (arith, a)
  two-written (port_is v ∷ opts) name s a b = ground (arith, a)
  two-written (debug_on ∷ opts) name s a b =
      ap (λ o. some (settle o (record s { debug = true })))
        (sym (empty-counts opts a (omega (arith, b))))

  parse_args-counts :
      (opts : List Opt) (name : List ℕ) (s : Settings) (n d : ℕ)
      → valued opts ≡ n
      → debugs opts ≡ d
      → is_plain name ≡ true
      → all_plain opts ≡ true
      → n ≤ 2
      → d ≤ 1
      → parse_args atoi (name ∷ write_args opts) s ≡ some (settle opts s)
  unfolding parse_args
  parse_args-counts opts name s (suc (suc zero)) (suc zero) a b q p hn hd =
      let l : length (name ∷ write_args opts) ≡ 6 = omega (arith, length-write_args opts, a, b) in
      rw l (counted-written _ opts name s 3 q p (ground (arith, a, b)) (omega (arith, a, b)))
  parse_args-counts opts name s (suc (suc zero)) zero a b q p hn hd =
      let l : length (name ∷ write_args opts) ≡ 5 = omega (arith, length-write_args opts, a, b) in
      rw l (counted-written _ opts name s 2 q p (ground (arith, a, b)) (omega (arith, a, b)))
  parse_args-counts opts name s (suc zero) (suc zero) a b q p hn hd =
      let l : length (name ∷ write_args opts) ≡ 4 = omega (arith, length-write_args opts, a, b) in
      rw l (counted-written _ opts name s 2 q p (ground (arith, a, b)) (omega (arith, a, b)))
  parse_args-counts opts name s (suc zero) zero a b q p hn hd =
      let l : length (name ∷ write_args opts) ≡ 3 = omega (arith, length-write_args opts, a, b) in
      rw l (counted-written _ opts name s 1 q p (ground (arith, a, b)) (omega (arith, a, b)))
  parse_args-counts opts name s zero (suc zero) a b q p hn hd =
      let l : length (name ∷ write_args opts) ≡ 2 = omega (arith, length-write_args opts, a, b) in
      rw l (two-written opts name s a b)
  parse_args-counts opts name s zero zero a b q p hn hd =
      ap (λ o. parse_args atoi (name ∷ write_args o) s) (empty-counts opts a b)
      ∙ ap (λ o. some (settle o s)) (sym (empty-counts opts a b))
  parse_args-counts opts name s (suc (suc (suc n))) d a b q p hn hd = ground (arith, hn)
  parse_args-counts opts name s zero (suc (suc d)) a b q p hn hd = ground (arith, hd)
  parse_args-counts opts name s (suc zero) (suc (suc d)) a b q p hn hd = ground (arith, hd)
  parse_args-counts opts name s (suc (suc zero)) (suc (suc d)) a b q p hn hd = ground (arith, hd)

  -- The client's settings are those its options make one after the other, when they have two values at most
  -- and "--debug" comes once at most, and neither the program's name nor a value begins with two dashes.
  pub parse_args-write_args :
      (opts : List Opt) (name : List ℕ) (s : Settings)
      → is_plain name ≡ true
      → all_plain opts ≡ true
      → valued opts ≤ 2
      → debugs opts ≤ 1
      → parse_args atoi (name ∷ write_args opts) s ≡ some (settle opts s)
  parse_args-write_args opts name s q p hn hd =
      parse_args-counts opts name s (valued opts) (debugs opts) refl refl q p hn hd
