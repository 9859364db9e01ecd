-- ===== src/Bridge/Registry.antt =====
-- cmd/bridge/epoch.go: a match that is still listed keeps its sequence.
use nevr_anticheat.Prelude.{
  ◌≡◌, refl, ap, String, false, not, some, List, inl, inr, arith, Bool-cases,
}
use nevr_anticheat.Prelude.Int.{ℤ, ◌-ℤ◌, ◌≤ℤ◌, ltb_ℤ, -ℤ_parts}
use nevr_anticheat.Prelude.Dict.{lookup, lookup-insert_self, lookup-retain}
use nevr_anticheat.Prelude.Float.{Float}
use nevr_anticheat.Bridge.Epoch.{Epoch, get, touch, expire, is_stale, seen_at}

module _ {ℓ} {W : Type ℓ} ⦃f : Float W⦄ where
  lookup-touch :
      (reg : List (String × Epoch W)) (id : String) (now : ℤ) (e : Epoch W)
      → lookup id reg ≡ some e
      → lookup id (touch reg id now) ≡ some (seen_at now e)
  unfolding touch
  lookup-touch reg id now e h = rw h (lookup-insert_self id (seen_at now e) reg)

  seen_at-is_stale :
      (e : Epoch W) (now later ttl : ℤ)
      → later -ℤ now ≤ℤ ttl
      → is_stale later ttl (seen_at now e) ≡ false
  unfolding is_stale seen_at
  seen_at-is_stale e now later ttl h = elim (Bool-cases (ltb_ℤ e.last_seen now)) [
    | inl b ↦ rw b (ground arith)
    | inr b ↦ rw b (ground (arith, -ℤ_parts later now, -ℤ_parts later e.last_seen))
  ]

  -- A match that was touched at most ttl before an expiry is still registered after it, and a poller
  -- that gets its epoch goes on with the index, the timestamps and the session that it had.
  get-expire-touch :
      (reg : List (String × Epoch W)) (id : String) (now later after ttl : ℤ) (e : Epoch W)
      → lookup id reg ≡ some e
      → later -ℤ now ≤ℤ ttl
      → (get after (expire (touch reg id now) later ttl).0 id).1 ≡ seen_at now e
  unfolding get expire
  get-expire-touch reg id now later after ttl e h r =
      let here =
        lookup-retain (λ e. not (is_stale later ttl e)) id (seen_at now e) (touch reg id now)
          (lookup-touch reg id now e h) (ap not (seen_at-is_stale e now later ttl r)) in
      rw here refl
