-- ===== src/Examples/Crl.antt =====
-- pkg/protocols/crl/generator.go on two records.
use go_certa.Prelude.{ℕ, ◌+◌, ◌-ℤ◌, Str, codes, pos, none, some, List, [], ◌∷◌, ◌≡◌, ◌≢◌, refl}
use go_certa.Ca.Types.{minute}
use go_certa.Ca.Serial.{set_string_16}
use go_certa.Storage.{RevocationRecord, normalize_serial}
use go_certa.Storage
use go_certa.Crl.{
  Signer, Generator, RevocationList, Service, new_crl_generator, new_crl_service, generate_crl,
  regenerate, latest_crl, tick,
}
use go_certa.Crl.Listed.{Lists, generate_crl-Lists}
use go_certa.Crl.Ticker.{Happening, history, ticks, regenerates, stops, tick_freezes}

abbrev signer : Signer
signer l = some (l.number ∷ [])

abbrev records : List RevocationRecord
records =
    record { serial = codes "0xAB"; revoked_at = 5; reason = pos 1 }
    ∷ record { serial = codes "1f"; revoked_at = 9; reason = pos 4 }
    ∷ []

abbrev generator : Generator
generator = new_crl_generator (pos 0)

abbrev service : Service
service = new_crl_service generator (pos 0)

abbrev listed : Storage.Result (List RevocationRecord)
listed = Storage.Result.ok records

some-ne : (s : Str) → some s ≢ none
some-ne s e = cc

generate_crl-Lists_example :
    (l : RevocationList) × (signer l ≡ some (1 ∷ []))
    × (l.number ≡ generator.crl_number + 1)
    × ((record generator { crl_number = 1 }).crl_number ≡ generator.crl_number + 1)
    × (l.this_update ≡ pos 100 -ℤ pos minute)
    × Lists records l.entries
unfolding generate_crl new_crl_generator set_string_16 normalize_serial
generate_crl-Lists_example =
    generate_crl-Lists signer 100 records generator (record generator { crl_number = 1 }) (1 ∷ [])
      refl

abbrev happenings : List Happening
happenings = regenerates 200 listed ∷ stops ∷ ticks 300 listed ∷ []

tick_freezes_example :
    let t = history signer happenings (tick signer 150 listed service) in
    (latest_crl t ≡ latest_crl service)
    × (t.generator.crl_number ≡ service.generator.crl_number)
    × ((at : ℕ) (found : Storage.Result (List RevocationRecord))
        → regenerate signer at found t ≡ none)
tick_freezes_example = tick_freezes signer 150 listed service happenings
