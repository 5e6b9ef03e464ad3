-- ===== src/Telemetry/Text.antt =====
-- pkg/telemetry/metrics.go: WritePrometheus and the handler.
use go_certa.Prelude.{Str, codes, Dict, [], ◌∷◌, ◌++◌, is_empty, if◌then◌else◌}
use go_certa.Http.{Method, get, head}
use go_certa.Telemetry.{Numbers, CounterEntry, CounterMetric, GaugeMetric, Registry, sort_entries}

module _ (F : Numbers) where
  abbrev line : Str → Str
  line text = text ++ 10 ∷ []

  abbrev head_of : Str → Str → Str → Str
  head_of name help type =
      line (codes "# HELP " ++ (name ++ b' ' ∷ help))
      ++ line (codes "# TYPE " ++ (name ++ b' ' ∷ type))

  abbrev entry_lines : Str → Dict (CounterEntry F) → Str
  entry_lines name [] = []
  entry_lines name ((lk, e) ∷ es) =
      line (name ++ (lk ++ b' ' ∷ F.format e.value)) ++ entry_lines name es

  abbrev counter_text : CounterMetric F → Str
  counter_text c =
      head_of c.name c.help (codes "counter")
      ++ ((if is_empty c.entries
            then line (c.name ++ codes " 0")
            else entry_lines c.name (sort_entries c.entries))
          ++ line [])

  abbrev counter_texts : Dict (CounterMetric F) → Str
  counter_texts [] = []
  counter_texts ((name, c) ∷ cs) = counter_text c ++ counter_texts cs

  abbrev gauge_text : GaugeMetric F → Str
  gauge_text g =
      head_of g.name g.help (codes "gauge") ++ (line (g.name ++ b' ' ∷ F.format g.value) ++ line [])

  abbrev gauge_texts : Dict (GaugeMetric F) → Str
  gauge_texts [] = []
  gauge_texts ((name, g) ∷ gs) = gauge_text g ++ gauge_texts gs

  unfoldable pub write_prometheus : Registry F → Str
  unfolding sort_entries
  write_prometheus r =
      counter_texts (sort_entries r.counters) ++ gauge_texts (sort_entries r.gauges)

  -- The handler's answer: 405, or 200 with its body.
  pub data Reply : Type 0 where
    not_allowed : Reply
    answered : Str → Reply

  unfoldable pub serve : Method → Registry F → Reply
  unfolding write_prometheus
  serve m r = elim m [ get ↦ answered (write_prometheus r) | head ↦ answered [] | _ ↦ not_allowed ]
