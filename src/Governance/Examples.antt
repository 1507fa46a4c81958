-- ===== src/Governance/Examples.antt =====
-- A promotion from paper to limited live (internal/governance/service.go).
use trading_bot.Base.{suc, ◌≡◌, refl, true, false}
use trading_bot.Governance.Rollout.{
  paper, limited_live, rollback, full_live, eq_state, rank, legal, known_state, legal-rank,
  next_state,
}

promotion : (legal paper limited_live ≡ true) × (known_state limited_live ≡ true)
unfolding legal next_state known_state
promotion = (refl, refl)

legal-rank_example :
    (rank limited_live ≡ suc (rank paper))
    × (eq_state limited_live rollback ≡ false)
    × (eq_state paper rollback ≡ false)
    × (eq_state paper full_live ≡ false)
legal-rank_example = legal-rank paper limited_live promotion.0 promotion.1
