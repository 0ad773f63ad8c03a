-- ===== src/Accounts/Quota/Laws.antt =====
-- What a refresh may change: nothing that routing can see.
use chatgpt_codex_proxy.Base.{ℕ, ◌≤◌, ◌≡◌, false, some, arith}
use chatgpt_codex_proxy.Accounts.Types.{QuotaSnapshot}
use chatgpt_codex_proxy.Accounts.Quota.{normalize_quota_snapshot, quota_blocks_general_routing}

-- A second normalisation of a quota snapshot at the same time leaves it as it is and reports no
-- change.
pub normalize_quota_snapshot_idem :
    (q : QuotaSnapshot) (now : ℕ)
    → normalize_quota_snapshot (normalize_quota_snapshot q now).0 now
      ≡ ((normalize_quota_snapshot q now).0, false)
unfolding normalize_quota_snapshot
normalize_quota_snapshot_idem q now = ground arith

pub quota_blocks-normalize :
    (q : QuotaSnapshot) (now t : ℕ)
    → now ≤ t
    → quota_blocks_general_routing (some (normalize_quota_snapshot q now).0) t
      ≡ quota_blocks_general_routing (some q) t
unfolding normalize_quota_snapshot quota_blocks_general_routing
quota_blocks-normalize q now t h = ground arith
