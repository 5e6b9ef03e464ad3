-- ===== src/Crl/Listed.antt =====
-- pkg/protocols/crl/generator.go: the lists that GenerateCRL signs.
use go_certa.Prelude.{
  ℕ, ◌+◌, ℤ, pos, ◌-ℤ◌, Str, false, Option, none, some, List, [], ◌∷◌, if◌then◌else◌, ◌≡◌, ◌≢◌, ◌↔◌,
  refl, subst, arith, Option-cases, inl, inr,
}
use go_certa.Storage.{RevocationRecord, normalize_serial}
use go_certa.Storage
use go_certa.Ca.Types.{minute}
use go_certa.Ca.Serial.{set_string_16}
use go_certa.Crl.{
  Entry, RevocationList, ok, Signer, Generator, entry_of, to_entries, list_of, generate_crl,
  numbered,
}

-- The entries stand for the records, one for each and in their order.
abbrev pub Lists : List RevocationRecord → List Entry → Type 0
Lists [] [] = Unit
Lists [] (e ∷ es) = ⊥
Lists (r ∷ rs) [] = ⊥
Lists (r ∷ rs) (e ∷ es) =
    (set_string_16 (normalize_serial r.serial) ≡ some e.serial_number)
    × (e.revocation_time ≡ r.revoked_at)
    × (e.reason_code ≡ r.reason)
    × Lists rs es

-- Every serial is hexadecimal.
abbrev pub Readable : List RevocationRecord → Type 0
Readable [] = Unit
Readable (r ∷ rs) = ((n : ℤ) × (set_string_16 (normalize_serial r.serial) ≡ some n)) × Readable rs

to_entries-Lists :
    (rs : List RevocationRecord) (es : List Entry) → to_entries rs ≡ some es → Lists rs es
unfolding to_entries
to_entries-Lists [] [] h = tt
to_entries-Lists [] (e ∷ es) h = cc
to_entries-Lists (r ∷ rs) es h = elim (Option-cases (set_string_16 (normalize_serial r.serial))) [
  | inl e ↦ cc (rw (e, to_entries) at h)
  | inr (n, e) ↦ elim (Option-cases (to_entries rs)) [
    | inl f ↦ cc (rw (e, f, to_entries) at h)
    | inr (rest, f) ↦
        let same : entry_of r n ∷ rest ≡ es = ground arith in
        subst (Lists (r ∷ rs)) same (e, refl, refl, to_entries-Lists rs rest f)
  ]
]

to_entries-total :
    (rs : List RevocationRecord) → Readable rs → (es : List Entry) × (to_entries rs ≡ some es)
unfolding to_entries
to_entries-total [] h = ([], refl)
to_entries-total (r ∷ rs) ((n, e), h) =
    let (rest, f) = to_entries-total rs h in (entry_of r n ∷ rest, rw (e, f, to_entries))

to_entries-Readable : (rs : List RevocationRecord) (es : List Entry) → Lists rs es → Readable rs
to_entries-Readable [] es h = tt
to_entries-Readable (r ∷ rs) [] h = absurd h
to_entries-Readable (r ∷ rs) (e ∷ es) h = ((e.serial_number, h.0), to_entries-Readable rs es h.3)

made :
    (sign : Signer) (now : ℕ) (found : Option (List Entry)) (g g' : Generator) (der : Str)
    → numbered sign now found g ≡ (ok der, g')
    → (es : List Entry) × (found ≡ some es)
      × (sign (list_of g now es) ≡ some der)
      × (g'.crl_number ≡ g.crl_number + 1)
unfolding numbered
made sign now none g g' der h = cc
made sign now (some es) g g' der h = (es, refl, ground arith, ground arith)

opened :
    (sign : Signer) (now : ℕ) (records : List RevocationRecord) (g : Generator)
    → generate_crl sign now (Storage.Result.ok records) g
      ≡ (if g.held then none else some (numbered sign now (to_entries records) g))
unfolding generate_crl
opened sign now records g = refl

unlocked :
    (sign : Signer) (now : ℕ) (records : List RevocationRecord) (g g' : Generator) (der : Str)
    → generate_crl sign now (Storage.Result.ok records) g ≡ some (ok der, g')
    → numbered sign now (to_entries records) g ≡ (ok der, g')
unlocked sign now records g g' der h = ground (arith, opened sign now records g)

-- A list that GenerateCRL signs has the next number, which is then used up, is dated one minute
-- back, and holds an entry for each record that the storage returned, in their order, with the
-- record's serial, time and reason.
pub generate_crl-Lists :
    (sign : Signer) (now : ℕ) (records : List RevocationRecord) (g g' : Generator) (der : Str)
    → generate_crl sign now (Storage.Result.ok records) g ≡ some (ok der, g')
    → (l : RevocationList) × (sign l ≡ some der)
      × (l.number ≡ g.crl_number + 1)
      × (g'.crl_number ≡ g.crl_number + 1)
      × (l.this_update ≡ pos now -ℤ pos minute)
      × Lists records l.entries
unfolding list_of
generate_crl-Lists sign now records g g' der h =
    let (es, found, signs, next) =
      made sign now (to_entries records) g g' der (unlocked sign now records g g' der h) in
    (list_of g now es, signs, refl, next, refl, to_entries-Lists records es found)

signed_by :
    (sign : Signer) (now : ℕ) (es : List Entry) (g : Generator) (der : Str)
    → sign (list_of g now es) ≡ some der
    → numbered sign now (some es) g ≡ (ok der, record g { crl_number = g.crl_number + 1 })
unfolding numbered
signed_by sign now es g der e = unfold list_of in rw e

-- One revocation whose serial is not hexadecimal keeps GenerateCRL from listing any: given the
-- mutex and a signer that does not fail, it signs a list exactly when every serial is readable.
generate_crl_exact :
    (sign : Signer) (now : ℕ) (records : List RevocationRecord) (g : Generator)
    → g.held ≡ false
    → ((l : RevocationList) → sign l ≢ none)
    → ((der : Str) × (g' : Generator) × (generate_crl sign now (Storage.Result.ok records) g
          ≡ some (ok der, g')))
      ↔ Readable records
generate_crl_exact sign now records g free signs = (
  λ (der, g', h).
      let (es, found, _, _) =
        made sign now (to_entries records) g g' der (unlocked sign now records g g' der h) in
      to_entries-Readable records es (to_entries-Lists records es found),
  λ r.
      let (es, found) = to_entries-total records r in
      elim (Option-cases (sign (list_of g now es))) [
        | inl e ↦ absurd (signs (list_of g now es) e)
        | inr (der, e) ↦ (
          der,
          record g { crl_number = g.crl_number + 1 },
          ground (arith, opened sign now records g, signed_by sign now es g der e, found),
        )
      ],
)
