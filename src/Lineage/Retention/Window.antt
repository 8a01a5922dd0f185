-- ===== src/Lineage/Retention/Window.antt =====
-- The retention window of internal/controller/lineage_controller.go in days.
use seam_core.Prelude.{ℕ, ◌+◌, ◌*◌, ◌≤◌, ◌≡◌, ◌↔◌, true, false, Option, some, arith}
use seam_core.Prelude.Int.{pos, ltb_ℤ, sub_ℕ}
use seam_core.Lineage.Index.{DescendantEntry, LineageRetentionPolicy}
use seam_core.Lineage.Retention.{second, hour, retention_days, retention_window, since, is_expired}

abbrev pub days : ℕ → Option LineageRetentionPolicy
days d = some (record { descendant_retention_days = pos d; delete_with_root = true })

window_days : (d : ℕ) → 1 ≤ d → d ≤ 106751 → retention_window (days d) ≡ pos (d * 24 * hour)
unfolding retention_window retention_days
window_days d p q = ground arith

since_past : (now t : ℕ) → t ≤ now → now ≤ t + 9223372036854775807 → since now t ≡ sub_ℕ now t
unfolding since
since_past now t p q = ground arith

-- With a retention of 1 to 106751 days, an entry that was created in the past, less than 2 ^ 63
-- nanoseconds ago, is expired once that many days have passed, and not before.
pub is_expired_iff :
    (now t d : ℕ) (e : DescendantEntry)
    → 1 ≤ d
    → d ≤ 106751
    → e.created_at ≡ some t
    → t * second ≤ now
    → now ≤ t * second + 9223372036854775807
    → (is_expired now (days d) e ≡ true) ↔ (t * second + d * 24 * hour ≤ now)
unfolding is_expired
is_expired_iff now t d e p q c past recent =
    rw (c, window_days d p q, since_past now (t * second) past recent) (ground arith)

window_wraps : (d : ℕ) → 106752 ≤ d → d ≤ 213503 → ltb_ℤ (pos 0) (retention_window (days d)) ≡ false
unfolding retention_window retention_days
window_wraps d p q = ground arith

-- With a retention of 106752 to 213503 days, an entry that was created in the past is expired at
-- once: the window wraps around to a negative duration.
pub is_expired-wrapped :
    (now t d : ℕ) (e : DescendantEntry)
    → 106752 ≤ d
    → d ≤ 213503
    → e.created_at ≡ some t
    → t * second ≤ now
    → is_expired now (days d) e ≡ true
unfolding is_expired retention_window since retention_days
is_expired-wrapped now t d e p q c past = rw c (ground arith)
