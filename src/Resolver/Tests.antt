-- ===== src/Resolver/Tests.antt =====
-- Runs of the resolver on concrete evidence.
use readsync.Base.{ℕ, ◌≤◌, true, List, some, ◌≡◌, ◌↔◌, codes, length, exists, All}
use readsync.Base.Double.{Thousandths, thousandths}
use readsync.Resolver.Bands.{Evidence, no_evidence, writeback_enabled}
use readsync.Resolver.Normalize.{ascii}
use readsync.Resolver.Jaro.{first_loop, transpose_loop}
use readsync.Resolver.Jaro.Matching.{matches_bounds}
use readsync.Resolver.Score.{Match, score, signals, hits}
use readsync.Resolver.Score.Signals.{score-writeback}

abbrev emma : Evidence
emma = record no_evidence { isbn13 = codes "978-1"; title = codes "Emma" }

abbrev emma_again : Evidence
emma_again = record no_evidence { isbn13 = codes "9781"; asin = codes "B0"; title = codes "Emma!" }

abbrev martha : List ℕ
martha = codes "martha"

abbrev marhta : List ℕ
marhta = codes "marhta"

matches_bounds_example :
    let r = first_loop martha marhta in
    (r.matches ≤ length martha)
    × (r.matches ≤ length marhta)
    × (k : ℕ) × (transpose_loop martha r.s_matched marhta r.t_matched 0 ≡ some k)
    × (k ≤ r.matches)
matches_bounds_example = matches_bounds martha marhta

score-writeback_example :
    (m : Match) × (score ascii Thousandths emma emma_again ≡ some m)
    × ((writeback_enabled m.confidence ≡ true)
        ↔ (exists (hits ascii) (signals emma emma_again) ≡ true))
    × All (λ s. hits ascii s ≡ true → s.score ≤ m.confidence) (signals emma emma_again)
score-writeback_example = score-writeback ascii Thousandths emma emma_again
