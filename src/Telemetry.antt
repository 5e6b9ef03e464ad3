-- ===== src/Telemetry.antt =====
-- pkg/telemetry/metrics.go: the registry of metrics; its text form is in Text. A float64 with what
-- the code does to it is a parameter, and so is the %q of fmt.
pub mod Text
pub mod Counted
use go_certa.Prelude.{
  Str, codes, Dict, lookup, insert, str_lt, Bool, Option, none, some, [], ◌∷◌, ◌++◌, is_empty,
  if◌then◌else◌,
}

pub record Numbers : Type 1 where
  pub Num : Type 0
  pub zero : Num
  pub one : Num
  pub plus : Num → Num → Num
  pub minus : Num → Num → Num
  pub is_positive : Num → Bool
  -- strconv.FormatFloat(v, 'f', -1, 64)
  pub format : Num → Str
  pub quote : Str → Str

abbrev pub Labels : Type 0
Labels = Dict Str

abbrev pub certs_issued_total : Str
certs_issued_total = codes "certa_certificates_issued_total"

abbrev pub certs_revoked_total : Str
certs_revoked_total = codes "certa_certificates_revoked_total"

abbrev pub ocsp_requests_total : Str
ocsp_requests_total = codes "certa_ocsp_requests_total"

abbrev pub policy_rejections_total : Str
policy_rejections_total = codes "certa_policy_rejections_total"

abbrev pub signing_queue_depth : Str
signing_queue_depth = codes "certa_signing_queue_depth"

abbrev pub revoked_certs_count : Str
revoked_certs_count = codes "certa_revoked_certificates_count"

-- The entries of a map in the order of sort.Strings on its keys, in which the code visits them.
unfoldable pub insert_entry {ℓ} : {V : Type ℓ} → Str × V → Dict V → Dict V
unfolding str_lt
insert_entry (k, v) [] = (k, v) ∷ []
insert_entry (k, v) ((j, w) ∷ m) =
    let rest = insert_entry (k, v) m in if str_lt j k then (j, w) ∷ rest else (k, v) ∷ (j, w) ∷ m

unfoldable pub sort_entries {ℓ} : {V : Type ℓ} → Dict V → Dict V
unfolding insert_entry
sort_entries [] = []
sort_entries (e ∷ m) = insert_entry e (sort_entries m)

module _ (F : Numbers) where
  abbrev joined_labels : Labels → Str
  joined_labels [] = []
  joined_labels ((k, v) ∷ []) = k ++ b'=' ∷ F.quote v
  joined_labels ((k, v) ∷ e ∷ m) = k ++ b'=' ∷ (F.quote v ++ b',' ∷ joined_labels (e ∷ m))

  unfoldable pub format_labels : Labels → Str
  unfolding sort_entries
  format_labels labels =
      if is_empty labels then [] else b'{' ∷ (joined_labels (sort_entries labels) ++ b'}' ∷ [])

  pub record CounterEntry : Type 0 where
    pub labels : Labels
    pub value : F.Num

  pub record CounterMetric : Type 0 where
    pub name : Str
    pub help : Str
    pub entries : Dict CounterEntry

  pub record GaugeMetric : Type 0 where
    pub name : Str
    pub help : Str
    pub value : F.Num

  pub record Registry : Type 0 where
    pub counters : Dict CounterMetric
    pub gauges : Dict GaugeMetric

  abbrev pub fresh_counter : Str → Str → CounterMetric
  fresh_counter name help = record { name = name; help = help; entries = [] }

  abbrev pub fresh_gauge : Str → Str → GaugeMetric
  fresh_gauge name help = record { name = name; help = help; value = F.zero }

  unfoldable pub register_counter : Str → Str → Registry → Registry
  register_counter name help r = record r {
    counters = insert name (fresh_counter name help) r.counters;
  }

  unfoldable pub register_gauge : Str → Str → Registry → Registry
  register_gauge name help r = record r { gauges = insert name (fresh_gauge name help) r.gauges }

  unfoldable pub new_registry : Registry
  unfolding register_counter register_gauge
  new_registry =
      register_gauge revoked_certs_count (codes "Total number of currently revoked certificates") (
        register_gauge signing_queue_depth (codes "Current number of signing requests queued") (
          register_counter policy_rejections_total
            (codes "Total number of certificate requests rejected by policy")
            (register_counter ocsp_requests_total
              (codes "Total number of OCSP requests processed by status")
              (register_counter certs_revoked_total
                (codes "Total number of certificates revoked by reason")
                (register_counter certs_issued_total
                  (codes "Total number of certificates issued by profile")
                  (record { counters = []; gauges = [] }))))))

  abbrev pub counter_or_new : Str → Option CounterMetric → CounterMetric
  counter_or_new name none = fresh_counter name name
  counter_or_new name (some c) = c

  abbrev pub entry_or_new : Labels → Option CounterEntry → CounterEntry
  entry_or_new labels none = record { labels = labels; value = F.zero }
  entry_or_new labels (some e) = e

  abbrev pub gauge_or_new : Str → Option GaugeMetric → GaugeMetric
  gauge_or_new name none = fresh_gauge name name
  gauge_or_new name (some g) = g

  abbrev pub add_entry : Str → F.Num → Labels → CounterMetric → CounterMetric
  add_entry key delta labels c =
      let entry = entry_or_new labels (lookup key c.entries) in
      record c {
        entries = insert key (record entry { value = F.plus entry.value delta }) c.entries;
      }

  unfoldable pub add_counter : Str → F.Num → Labels → Registry → Registry
  unfolding format_labels
  add_counter name delta labels r = record r {
    counters =
        insert name
          (add_entry (format_labels labels) delta labels
            (counter_or_new name (lookup name r.counters)))
          r.counters;
  }

  unfoldable pub set_gauge : Str → F.Num → Registry → Registry
  set_gauge name value r = record r {
    gauges =
        insert name (record (gauge_or_new name (lookup name r.gauges)) { value = value }) r.gauges;
  }

  abbrev put_gauge : Str → (F.Num → F.Num) → Option GaugeMetric → Registry → Registry
  put_gauge name f none r = r
  put_gauge name f (some g) r = record r {
    gauges = insert name (record g { value = f g.value }) r.gauges;
  }

  unfoldable pub inc_revoked_certificates_count : Registry → Registry
  inc_revoked_certificates_count r =
      put_gauge revoked_certs_count (λ v. F.plus v F.one) (lookup revoked_certs_count r.gauges) r

  unfoldable pub dec_revoked_certificates_count : Registry → Registry
  dec_revoked_certificates_count r =
      put_gauge revoked_certs_count (λ v. if F.is_positive v then F.minus v F.one else v)
        (lookup revoked_certs_count r.gauges) r

  unfoldable pub inc_certificates_issued : Str → Registry → Registry
  inc_certificates_issued profile =
      add_counter certs_issued_total F.one ((codes "profile", profile) ∷ [])

  unfoldable pub inc_certificates_revoked : Str → Registry → Registry
  inc_certificates_revoked reason r =
      inc_revoked_certificates_count
        (add_counter certs_revoked_total F.one ((codes "reason", reason) ∷ []) r)

  unfoldable pub inc_ocsp_requests : Str → Registry → Registry
  inc_ocsp_requests status = add_counter ocsp_requests_total F.one ((codes "status", status) ∷ [])

  unfoldable pub inc_policy_rejections : Str → Registry → Registry
  inc_policy_rejections reason =
      add_counter policy_rejections_total F.one ((codes "reason", reason) ∷ [])

  unfoldable pub set_signing_queue_depth : F.Num → Registry → Registry
  set_signing_queue_depth = set_gauge signing_queue_depth

  unfoldable pub set_revoked_certificates_count : F.Num → Registry → Registry
  set_revoked_certificates_count = set_gauge revoked_certs_count

  abbrev pub entry_value : Option CounterEntry → F.Num
  entry_value none = F.zero
  entry_value (some e) = e.value

  abbrev pub counter_value : Str → Option CounterMetric → F.Num
  counter_value key none = F.zero
  counter_value key (some c) = entry_value (lookup key c.entries)

  unfoldable pub get_counter : Str → Labels → Registry → F.Num
  unfolding format_labels
  get_counter name labels r = counter_value (format_labels labels) (lookup name r.counters)

  abbrev gauge_value : Option GaugeMetric → F.Num
  gauge_value none = F.zero
  gauge_value (some g) = g.value

  unfoldable pub get_gauge : Str → Registry → F.Num
  get_gauge name r = gauge_value (lookup name r.gauges)
