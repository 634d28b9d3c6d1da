-- ===== src/Cli/Validity.antt =====
-- `resolveValidBefore` of internal/cli/cli.go. `now` is the clock's `uint64(time.Now().Unix())`.
use eip.Prelude.{
  ℕ, ◌+◌, ◌-◌, ◌%◌, ◌^◌, ◌<◌, ◌≡◌, ◌≢◌, ◌↔◌, ◌⊎◌, not, ◌&&◌, arith, ltb, ◌==◌, if◌then◌else◌,
}
use eip.Outcome.{valid_before_and_ttl, valid_before_or_ttl, ttl_overflows, Outcome, ok, err}

unfoldable pub resolve_valid_before : ℕ → ℕ → ℕ → Outcome ℕ
resolve_valid_before now valid_before ttl =
    if not (valid_before == 0) && not (ttl == 0)
    then err valid_before_and_ttl
    else if valid_before == 0 && ttl == 0
    then err valid_before_or_ttl
    else if not (valid_before == 0)
    then ok valid_before
    else if ltb (2 ^ 64 - 1 - now) ttl
    then err ttl_overflows
    else ok ((now + ttl) % 2 ^ 64)

-- At a time and with flags that fit a uint64: an expiration is returned exactly where one of the two
-- flags is given and the other is not, and the time with the ttl added fits a uint64. It is the
-- flag's own time, or the true sum, which is later than now; nothing wraps around.
pub resolve_valid_before_iff :
    (now valid_before ttl r : ℕ)
    → now < 2 ^ 64
    → valid_before < 2 ^ 64
    → ttl < 2 ^ 64
    → (resolve_valid_before now valid_before ttl ≡ ok r) ↔ (
        ((valid_before ≢ 0) × (ttl ≡ 0) × (r ≡ valid_before))
        ⊎ ((valid_before ≡ 0) × (ttl ≢ 0) × (r ≡ now + ttl) × (r < 2 ^ 64)))
unfolding resolve_valid_before
resolve_valid_before_iff now valid_before ttl r hn hv ht = (sound, complete)
  where
    sound :
        resolve_valid_before now valid_before ttl ≡ ok r
        → (((valid_before ≢ 0) × (ttl ≡ 0) × (r ≡ valid_before))
            ⊎ ((valid_before ≡ 0) × (ttl ≢ 0) × (r ≡ now + ttl) × (r < 2 ^ 64)))
    sound h = ground arith

    complete :
        (((valid_before ≢ 0) × (ttl ≡ 0) × (r ≡ valid_before))
          ⊎ ((valid_before ≡ 0) × (ttl ≢ 0) × (r ≡ now + ttl) × (r < 2 ^ 64)))
        → resolve_valid_before now valid_before ttl ≡ ok r
    complete h = ground arith
