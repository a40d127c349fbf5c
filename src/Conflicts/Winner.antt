-- ===== src/Conflicts/Winner.antt =====
-- Which of two events wins.
use readsync.Base.{◌≤◌, ◌≡◌, ◌≢◌, ◌⊎◌, arith}
use readsync.Model.{ProgressEvent}
use readsync.Conflicts.{precedence, effective_time, choose_winner}

-- The loser never has a source of higher trust than the winner, and never a later time at the same
-- trust; and the winner is one of the two.
pub choose_winner_best :
    {W : Type 0} (a b : ProgressEvent W)
    → let w = (choose_winner a b).event in
      ((w ≡ a) ⊎ (w ≡ b))
      × (precedence w.source ≤ precedence a.source)
      × (precedence w.source ≤ precedence b.source)
      × (precedence a.source ≡ precedence b.source
          → (effective_time a ≤ effective_time w) × (effective_time b ≤ effective_time w))
unfolding choose_winner
choose_winner_best a b = ground arith

-- The order of the arguments matters only in a full tie: for events that differ in the trust of
-- their sources or in their times the same event wins, for the same reason.
pub choose_winner_comm :
    {W : Type 0} (a b : ProgressEvent W)
    → ((precedence a.source ≢ precedence b.source) ⊎ (effective_time a ≢ effective_time b))
    → choose_winner a b ≡ choose_winner b a
unfolding choose_winner
choose_winner_comm a b h = ground arith
