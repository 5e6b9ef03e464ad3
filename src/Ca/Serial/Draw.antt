-- ===== src/Ca/Serial/Draw.antt =====
-- pkg/ca/serial.go: what is drawn, and what is reserved.
use go_certa.Prelude.{
  ℕ, zero, suc, ◌^◌, ◌<◌, ◌≤◌, Str, str_eq, str_eq_iff, false, ◌||◌, none, some, List, [], ◌∷◌,
  ◌++◌, ltb, is_empty, Option-cases, subst, if◌then◌else◌, All, ◌≡◌, refl, sym, ap, ◌∙◌, arith, inl,
  inr,
}
use go_certa.Storage.{Error, already_exists, Result, ok, err, normalize_serial}
use go_certa.Storage.Contract.{Store, reserves, Phase, unused, reserve, next, answer, Steps}
use go_certa.Ca.Serial.{
  RandInt, Generated, serial, draw, generate_serial_with_bits, max_reservation_retries,
  format_serial, Reserved, reserved, Surroundings, settle, proceed, attempts,
  generate_and_reserve_serial_with_bits,
}
use go_certa.Ca.Serial.Text.{normalize-format, format_ne}

-- rand.Int is documented to return a number below its `max`, which is positive.
abbrev pub IsBelowMax : RandInt → Type 0
IsBelowMax none = Unit
IsBelowMax (some rand_int) = (m : ℕ) → rand_int (suc m) ≤ m

below : (rand_int : ℕ → ℕ) (max : ℕ) → IsBelowMax (some rand_int) → 0 < max → rand_int max < max
below rand_int zero h p = absurd (omega arith)
below rand_int (suc m) h p = let least = h m in omega (arith, least)

-- Calls that return zero for this `max`.
abbrev pub Zeroes : ℕ → List RandInt → Type 0
Zeroes max = All (λ o. (rand_int : ℕ → ℕ) × (o ≡ some rand_int) × (rand_int max ≡ 0))

draw_bounds :
    (max : ℕ) (draws : List RandInt) (v : ℕ)
    → 0 < max
    → All IsBelowMax draws
    → (draw max draws).0 ≡ serial v
    → (0 < v) × (v < max)
unfolding draw
draw_bounds max [] v p h e = cc
draw_bounds max (none ∷ rest) v p h e = cc
draw_bounds max (some rand_int ∷ rest) v p h e =
    let first = below rand_int max h.0 p in ground (arith, first, draw_bounds max rest v p h.1)

power_positive : (n : ℕ) → 0 < 2 ^ n
power_positive zero = omega arith
power_positive (suc n) = let rest = power_positive n in omega (arith, rest)

-- A generated serial is positive and below 2 ^ bits, if rand.Int returns numbers below the bound that
-- it is called with, whatever that is; and `bits` is then between 64 and 159.
pub generate_serial_bounds :
    (bits : ℕ) (draws : List RandInt) (v : ℕ)
    → All IsBelowMax draws
    → (generate_serial_with_bits bits draws).0 ≡ serial v
    → (0 < v) × (v < 2 ^ bits) × (64 ≤ bits) × (bits ≤ 159)
unfolding generate_serial_with_bits
generate_serial_bounds bits draws v h e =
    let (p, q) = draw_bounds (2 ^ bits) draws v (power_positive bits) h (ground arith) in
    (p, q, ground arith, ground arith)

abbrev number : ℕ → RandInt → ℕ
number max none = 0
number max (some rand_int) = rand_int max

draw_skips :
    (max : ℕ) (zeroes rest : List RandInt) (rand_int : ℕ → ℕ)
    → Zeroes max zeroes
    → 0 < rand_int max
    → draw max (zeroes ++ some rand_int ∷ rest) ≡ (serial (rand_int max), rest)
unfolding draw
draw_skips max [] rest rand_int z p = ground arith
draw_skips max (none ∷ zeroes) rest rand_int z p = let (f, e, _) = z.0 in cc
draw_skips max (some f ∷ zeroes) rest rand_int z p =
    let (g, e, zeroed) = z.0 in
    let same : f max ≡ 0 = ap (number max) e ∙ zeroed in
    ground (arith, same, draw_skips max zeroes rest rand_int z.1 p)

-- For a bit length in the window the loop skips zeroes, however many, and ends at the first number that
-- rand.Int returns for the bound 2 ^ bits and that is not zero, with that number.
pub generate_serial_terminates :
    (bits : ℕ) (rand_int : ℕ → ℕ) (zeroes rest : List RandInt)
    → 64 ≤ bits
    → bits ≤ 159
    → Zeroes (2 ^ bits) zeroes
    → 0 < rand_int (2 ^ bits)
    → generate_serial_with_bits bits (zeroes ++ some rand_int ∷ rest)
      ≡ (serial (rand_int (2 ^ bits)), rest)
unfolding generate_serial_with_bits
generate_serial_terminates bits rand_int zeroes rest l u z p =
    let inside : (ltb bits 64 || ltb 159 bits) ≡ false = ground arith in
    rw inside (draw_skips (2 ^ bits) zeroes rest rand_int z p)

draw_positive : (max : ℕ) (draws : List RandInt) (v : ℕ) → (draw max draws).0 ≡ serial v → 0 < v
unfolding draw
draw_positive max [] v e = cc
draw_positive max (none ∷ rest) v e = cc
draw_positive max (some rand_int ∷ rest) v e = ground (arith, draw_positive max rest v)

generate_positive :
    (bits : ℕ) (draws : List RandInt) (v : ℕ)
    → (generate_serial_with_bits bits draws).0 ≡ serial v
    → 0 < v
unfolding generate_serial_with_bits
generate_positive bits draws v e = draw_positive (2 ^ bits) draws v (ground arith)

module _ (store : Store) where
  -- The serial of `v` was free in `s` and is taken in `s'`; no other serial changed its phase.
  pub record Claimed (s s' : store.State) (v : ℕ) : Type 0 where
    pub valid : store.Valid s'
    pub fresh : store.phase s (format_serial (some v)) ≡ unused
    pub moved :
        (k : Str)
        → store.phase s' k
          ≡ (if str_eq (format_serial (some v)) k then Phase.reserved else store.phase s k)

  -- No serial changed its phase.
  record Same (s s' : store.State) : Type 0 where
    still : store.Valid s'
    same : (k : Str) → store.phase s' k ≡ store.phase s k

  Claimed-after : {s t u : store.State} {v : ℕ} → Same s t → Claimed t u v → Claimed s u v
  Claimed-after {s} {t} {u} {v} a c = record {
    valid = c.valid;
    fresh = sym (a.same (format_serial (some v))) ∙ c.fresh;
    moved = λ k. rw (sym (a.same k)) (c.moved k);
  }

  free : (p : Phase) → answer p reserve ≡ ok tt → p ≡ unused
  free unused e = refl
  free Phase.reserved e = cc
  free Phase.issued e = cc
  free Phase.revoked e = cc

  kept : (p : Phase) (e : Error) → answer p reserve ≡ err e → next p reserve ≡ p
  kept unused x e = cc
  kept Phase.reserved x e = refl
  kept Phase.issued x e = refl
  kept Phase.revoked x e = refl

  named : (v : ℕ) → 0 < v → is_empty (normalize_serial (format_serial (some v))) ≡ false
  named v p = rw (normalize-format v) (format_ne v p)

  reserve-step :
      (s : store.State) (now v : ℕ)
      → store.Valid s
      → 0 < v
      → Steps store.phase s
          (format_serial (some v))
          reserve
          (store.execute none now (reserves (format_serial (some v))) s)
  reserve-step s now v ok' p =
      rw normalize-format at
        (store.refines s now (reserves (format_serial (some v))) ok' (named v p))

  module _ (w : Surroundings) (v : ℕ) (s' : store.State) (left : List RandInt) where
    settle_claims :
        (u : ℕ) (s : store.State) (rest : List RandInt) (r : Result (Unit {0}) × store.State)
        (again : store.State → Reserved × store.State × List RandInt)
        → Steps store.phase s (format_serial (some u)) reserve r
        → store.Valid r.1
        → ((t : store.State) → store.Valid t → again t ≡ (reserved v, s', left) → Claimed t s' v)
        → settle store w u r rest again ≡ (reserved v, s', left)
        → Claimed s s' v
    settle_claims u s rest (ok x, t) again st val ih e =
        let fresh : store.phase s (format_serial (some u)) ≡ unused = free _ (sym st.answers) in
        let claimed : Claimed s t u = record {
          valid = val;
          fresh = fresh;
          moved = λ k. rw fresh at (st.moves k);
        } in
        let same_serial : u ≡ v = cc in
        let same_state : t ≡ s' = cc in
        subst (λ y. Claimed s y v) same_state (subst (λ y. Claimed s t y) same_serial claimed)
    settle_claims u s rest (err already_exists, t) again st val ih e =
        Claimed-after (record { still = val; same = λ k. unmoved k }) (ih t val e)
      where
        unmoved : (k : Str) → store.phase t k ≡ store.phase s k
        unmoved k = ground (
          arith,
          st.moves k,
          str_eq_iff (format_serial (some u)) k,
          kept (store.phase s (format_serial (some u))) already_exists (sym st.answers),
        )
    settle_claims u s rest (err x, t) again st val ih e = cc

    proceed_claims :
        (i : ℕ) (g : Generated) (rest : List RandInt) (s : store.State)
        (again : store.State → List RandInt → Reserved × store.State × List RandInt)
        → store.Valid s
        → ((u : ℕ) → g ≡ serial u → 0 < u)
        → ((t : store.State)
            → store.Valid t
            → again t rest ≡ (reserved v, s', left)
            → Claimed t s' v)
        → proceed store w i (g, rest) s again ≡ (reserved v, s', left)
        → Claimed s s' v
    unfolding proceed
    proceed_claims i (serial u) rest s again val pos ih e = elim (Option-cases (w.within i)) [
      | inl live ↦
          settle_claims u s rest
            (store.execute none (w.clock i) (reserves (format_serial (some u))) s)
            (λ t. again t rest) (reserve-step s (w.clock i) u val (pos u refl))
            (store.keeps none (w.clock i) (reserves (format_serial (some u))) s val) ih
            (rw live at e)
      | inr (x, dead) ↦ cc (
          rw
            (
              dead,
              store.rejects s (w.clock i) (reserves (format_serial (some u))) x
                  (named u (pos u refl)),
            )
            at e)
    ]
    proceed_claims i g rest s again val pos ih e = cc

    attempts_claims :
        (bits n i : ℕ) (s : store.State) (draws : List RandInt)
        → store.Valid s
        → attempts store w bits n i s draws ≡ (reserved v, s', left)
        → Claimed s s' v
    unfolding attempts
    attempts_claims bits zero i s draws val e = cc
    attempts_claims bits (suc n) i s draws val e = elim (Option-cases (w.checked i)) [
      | inl live ↦
          proceed_claims i (generate_serial_with_bits bits draws).0
            (generate_serial_with_bits bits draws).1 s (attempts store w bits n (suc i)) val
            (λ u q. generate_positive bits draws u q)
            (λ t vt q. attempts_claims bits n (suc i) t _ vt q) (rw (live, attempts) at e)
      | inr (x, dead) ↦ cc (rw (dead, attempts) at e)
    ]

  -- A serial that GenerateAndReserveSerialWithBits returns was free in the store before, is reserved
  -- after, and nothing else has moved, however many attempts met taken serials on the way.
  pub reserved_is_fresh :
      (w : Surroundings) (bits v : ℕ) (s s' : store.State) (draws left : List RandInt)
      → store.Valid s
      → generate_and_reserve_serial_with_bits store w bits s draws ≡ (reserved v, s', left)
      → Claimed s s' v
  unfolding generate_and_reserve_serial_with_bits
  reserved_is_fresh w bits v s s' draws left val e =
      attempts_claims w v s' left bits max_reservation_retries 0 s draws val e
