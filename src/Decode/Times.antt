-- ===== src/Decode/Times.antt =====
-- The scrape time of a summary: `getScrapeTimePod` and `getScrapeTimeNode` of decode/decode.go.
use mathlib.Core.Option
use gpu_metric_collector.Base.{ℕ, ◌≤◌, ◌≡◌, ◌≢◌, ◌⊎◌, inl, Option, none, some, List, [], ◌∷◌, arith}
use gpu_metric_collector.Stats.{CpuStats, MemoryStats, NetworkStats, FsStats}
use gpu_metric_collector.Decode.{earlier, get_scrape_time_pod, get_scrape_time_node}

-- No time, or Go's zero time.
abbrev pub IsMissing : Option ℕ → Type 0
IsMissing none = Unit {0}
IsMissing (some t) = t ≡ 0

abbrev pub AllMissing : List (Option ℕ) → Type 0
AllMissing [] = Unit {0}
AllMissing (o ∷ os) = IsMissing o × AllMissing os

abbrev pub NotAfter : ℕ → Option ℕ → Type 0
NotAfter t none = Unit {0}
NotAfter t (some u) = (u ≡ 0) ⊎ (t ≤ u)

abbrev pub AllNotBefore : ℕ → List (Option ℕ) → Type 0
AllNotBefore t [] = Unit {0}
AllNotBefore t (o ∷ os) = NotAfter t o × AllNotBefore t os

abbrev pub Reported : ℕ → List (Option ℕ) → Type 0
Reported t [] = ⊥
Reported t (o ∷ os) = (o ≡ some t) ⊎ Reported t os

-- The earliest of the times that are there, or none where all are missing.
abbrev pub IsEarliest : Option ℕ → List (Option ℕ) → Type 0
IsEarliest none os = AllMissing os
IsEarliest (some t) os = (t ≢ 0) × Reported t os × AllNotBefore t os

missing-NotBefore : (t : ℕ) (os : List (Option ℕ)) → AllMissing os → AllNotBefore t os
missing-NotBefore t [] h = tt
missing-NotBefore t (none ∷ os) h = (tt, missing-NotBefore t os h.1)
missing-NotBefore t (some u ∷ os) h = (inl h.0, missing-NotBefore t os h.1)

NotBefore-mono : (t u : ℕ) (os : List (Option ℕ)) → t ≤ u → AllNotBefore u os → AllNotBefore t os
NotBefore-mono t u [] le h = tt
NotBefore-mono t u (none ∷ os) le h = (tt, NotBefore-mono t u os le h.1)
NotBefore-mono t u (some v ∷ os) le h = (omega arith, NotBefore-mono t u os le h.1)

earlier-IsEarliest :
    (r o : Option ℕ) (os : List (Option ℕ)) → IsEarliest r os → IsEarliest (earlier r o) (o ∷ os)
unfolding earlier
earlier-IsEarliest none none os h = (tt, h)
earlier-IsEarliest none (some t) os h = ground (arith, missing-NotBefore t os)
earlier-IsEarliest (some e) none os h = ground arith
earlier-IsEarliest (some e) (some t) os h = ground (arith, NotBefore-mono t e os)

two : (a b : Option ℕ) → IsEarliest (earlier (earlier none a) b) (b ∷ a ∷ [])
two a b = earlier-IsEarliest (earlier none a) b (a ∷ []) (earlier-IsEarliest none a [] tt)

four :
    (a b c d : Option ℕ)
    → IsEarliest (earlier (earlier (earlier (earlier none a) b) c) d) (d ∷ c ∷ b ∷ a ∷ [])
four a b c d =
    let e = earlier (earlier none a) b in
    earlier-IsEarliest (earlier e c) d (c ∷ b ∷ a ∷ [])
      (earlier-IsEarliest e c (b ∷ a ∷ []) (two a b))

-- The scrape time of a pod is the earliest non-zero time of its CPU and memory statistics, and it
-- is missing only where both of those are missing or zero.
pub get_scrape_time_pod-IsEarliest :
    (cpu : Option CpuStats) (memory : Option MemoryStats)
    → IsEarliest
        (get_scrape_time_pod cpu memory)
        (Option.map (λ m. m.time) memory ∷ Option.map (λ c. c.time) cpu ∷ [])
unfolding get_scrape_time_pod
get_scrape_time_pod-IsEarliest cpu memory =
    two (Option.map (λ c. c.time) cpu) (Option.map (λ m. m.time) memory)

-- The scrape time of a node is the earliest non-zero time of its CPU, memory, network and file
-- system statistics, and it is missing only where all four are missing or zero.
pub get_scrape_time_node-IsEarliest :
    (cpu : Option CpuStats) (memory : Option MemoryStats) (network : Option NetworkStats)
    (fs : Option FsStats)
    → IsEarliest (get_scrape_time_node cpu memory network fs) (
        Option.map (λ f. f.time) fs
        ∷ Option.map (λ n. n.time) network
        ∷ Option.map (λ m. m.time) memory
        ∷ Option.map (λ c. c.time) cpu
        ∷ [])
unfolding get_scrape_time_node
get_scrape_time_node-IsEarliest cpu memory network fs =
    four (Option.map (λ c. c.time) cpu) (Option.map (λ m. m.time) memory)
      (Option.map (λ n. n.time) network) (Option.map (λ f. f.time) fs)
