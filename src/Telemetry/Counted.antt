-- ===== src/Telemetry/Counted.antt =====
-- pkg/telemetry/metrics.go: a counter shows the sum of what was added to it.
use go_certa.Prelude.{
  Str, codes, str_eq, str_eq_iff, lookup, lookup-insert, ◌&&◌, Option, none, some, List, [], ◌∷◌,
  if◌then◌else◌, ◌≡◌, refl, ap, ◌∙◌, Bool-cases, inl, inr,
}
use go_certa.Telemetry.{
  Numbers, Labels, Registry, revoked_certs_count, GaugeMetric, CounterMetric, CounterEntry,
  add_counter, add_entry, counter_or_new, entry_or_new, set_gauge, put_gauge,
  inc_revoked_certificates_count, dec_revoked_certificates_count, inc_certificates_issued,
  inc_certificates_revoked, inc_ocsp_requests, inc_policy_rejections, get_counter, counter_value,
  entry_value, format_labels, certs_issued_total, certs_revoked_total, ocsp_requests_total,
  policy_rejections_total,
}

-- The calls that change the registry.
pub data Call (F : Numbers) : Type 0 where
  adds : Str → F.Num → Labels → Call F
  sets : Str → F.Num → Call F
  issues revokes answers rejects : Str → Call F
  increments decrements : Call F

module _ (F : Numbers) where
  abbrev pub execute : Call F → Registry F → Registry F
  execute (adds name delta labels) r = add_counter F name delta labels r
  execute (sets name value) r = set_gauge F name value r
  execute (issues profile) r = inc_certificates_issued F profile r
  execute (revokes reason) r = inc_certificates_revoked F reason r
  execute (answers status) r = inc_ocsp_requests F status r
  execute (rejects reason) r = inc_policy_rejections F reason r
  execute increments r = inc_revoked_certificates_count F r
  execute decrements r = dec_revoked_certificates_count F r

  unfoldable pub run : List (Call F) → Registry F → Registry F
  run [] r = r
  run (c ∷ cs) r = run cs (execute c r)

  -- What a call adds to the counter `name` under the text `key` of its labels.
  abbrev counts : Str → Str → Str → Labels → F.Num → F.Num → F.Num
  counts name key name' labels delta v =
      if str_eq name' name && str_eq (format_labels F labels) key then F.plus v delta else v

  abbrev pub counted : Str → Str → Call F → F.Num → F.Num
  counted name key (adds name' delta labels) v = counts name key name' labels delta v
  counted name key (issues p) v =
      counts name key certs_issued_total ((codes "profile", p) ∷ []) F.one v
  counted name key (revokes p) v =
      counts name key certs_revoked_total ((codes "reason", p) ∷ []) F.one v
  counted name key (answers p) v =
      counts name key ocsp_requests_total ((codes "status", p) ∷ []) F.one v
  counted name key (rejects p) v =
      counts name key policy_rejections_total ((codes "reason", p) ∷ []) F.one v
  counted name key c v = v

  abbrev pub counted_all : Str → Str → List (Call F) → F.Num → F.Num
  counted_all name key [] v = v
  counted_all name key (c ∷ cs) v = counted_all name key cs (counted name key c v)

  new_value :
      (labels : Labels) (o : Option (CounterEntry F))
      → (entry_or_new F labels o).value ≡ entry_value F o
  new_value labels none = refl
  new_value labels (some e) = refl

  new_counter :
      (name key : Str) (o : Option (CounterMetric F))
      → entry_value F (lookup key (counter_or_new F name o).entries) ≡ counter_value F key o
  unfolding lookup
  new_counter name key none = refl
  new_counter name key (some c) = refl

  added :
      (key key' : Str) (delta : F.Num) (labels : Labels) (c : CounterMetric F)
      → entry_value F (lookup key (add_entry F key' delta labels c).entries) ≡ (
          if str_eq key' key
          then F.plus (entry_value F (lookup key c.entries)) delta
          else entry_value F (lookup key c.entries))
  added key key' delta labels c =
      let old = entry_or_new F labels (lookup key' c.entries) in
      let put = lookup-insert key' key (record old { value = F.plus old.value delta }) c.entries in
      elim (Bool-cases (str_eq key' key)) [
        | inl e ↦
            rw (put, e)
              (ap (λ v. F.plus v delta)
                (new_value labels (lookup key' c.entries)
                  ∙ ap (λ t. entry_value F (lookup t c.entries)) ((str_eq_iff key' key).0 e)))
        | inr e ↦ rw (put, e) refl
      ]

  get-add :
      (name name' : Str) (labels labels' : Labels) (delta : F.Num) (r : Registry F)
      → get_counter F name labels (add_counter F name' delta labels' r)
        ≡ counts name (format_labels F labels) name' labels' delta (get_counter F name labels r)
  unfolding get_counter add_counter
  get-add name name' labels labels' delta r =
      let key = format_labels F labels in
      let key' = format_labels F labels' in
      let old = counter_or_new F name' (lookup name' r.counters) in
      let put = lookup-insert name' name (add_entry F key' delta labels' old) r.counters in
      elim (Bool-cases (str_eq name' name)) [
        | inl e ↦
            rw (put, e)
              (added key key' delta labels' old
                ∙ ap (λ v. if str_eq key' key then F.plus v delta else v)
                    (new_counter name' key (lookup name' r.counters)
                      ∙ ap (λ t. counter_value F key (lookup t r.counters))
                          ((str_eq_iff name' name).0 e)))
        | inr e ↦ rw (put, e) refl
      ]

  put_gauge-same :
      (name : Str) (labels : Labels) (gauge : Str) (f : F.Num → F.Num) (o : Option (GaugeMetric F))
      (r : Registry F)
      → get_counter F name labels (put_gauge F gauge f o r) ≡ get_counter F name labels r
  unfolding get_counter
  put_gauge-same name labels gauge f none r = refl
  put_gauge-same name labels gauge f (some g) r = refl

  get-execute :
      (name : Str) (labels : Labels) (c : Call F) (r : Registry F)
      → get_counter F name labels (execute c r)
        ≡ counted name (format_labels F labels) c (get_counter F name labels r)
  unfolding inc_certificates_issued inc_ocsp_requests inc_policy_rejections set_gauge
      inc_certificates_revoked inc_revoked_certificates_count dec_revoked_certificates_count
  get-execute name labels (adds name' delta labels') r = get-add name name' labels labels' delta r
  get-execute name labels (sets name' value) r = unfold get_counter in refl
  get-execute name labels (issues p) r = get-add name _ labels _ F.one r
  get-execute name labels (revokes p) r =
      put_gauge-same name labels revoked_certs_count _ _ _ ∙ get-add name _ labels _ F.one r
  get-execute name labels (answers p) r = get-add name _ labels _ F.one r
  get-execute name labels (rejects p) r = get-add name _ labels _ F.one r
  get-execute name labels increments r = put_gauge-same name labels revoked_certs_count _ _ r
  get-execute name labels decrements r = put_gauge-same name labels revoked_certs_count _ _ r

  -- After any calls, a counter shows for its labels the value before with the deltas added, one after
  -- the other, of the calls that name the counter with labels of the same text; no other call, and
  -- none on the gauges, changes it.
  pub get-run :
      (name : Str) (labels : Labels) (calls : List (Call F)) (r : Registry F)
      → get_counter F name labels (run calls r)
        ≡ counted_all name (format_labels F labels) calls (get_counter F name labels r)
  unfolding run
  get-run name labels [] r = refl
  get-run name labels (c ∷ cs) r =
      get-run name labels cs (execute c r)
      ∙ ap (counted_all name (format_labels F labels) cs) (get-execute name labels c r)
