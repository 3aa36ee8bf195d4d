-- ===== src/Ops/Ownership.antt =====
-- chmod and chown: what becomes of the mode.
use h_flat.Base.{ℕ, ◌≡◌, refl, ◌≢◌, true, ◌||◌, Option, none, some, arith, ok, fault, Fault}
use h_flat.Metadata.Defs.{Metadata, User}
use h_flat.Ops.Permission.{new_mode, is_given, clear_bit, s_isuid, s_isgid}

-- A chown by a user other than root succeeds at first, and sets a mode without the set-uid and
-- set-gid bits; but if its metadata has to be written again because another client wrote in
-- between, the retry, which gets that mode as an argument, fails the assertion that there is none.
new_mode_retry :
    (u : User) (md later : Metadata) (uid gid : Option ℕ)
    → u.uid ≢ 0
    → (is_given uid || is_given gid) ≡ true
    → (m : ℕ) × (new_mode u md none uid gid ≡ ok (some m))
      × (m ≡ clear_bit (clear_bit md.mode s_isuid) s_isgid)
      × (new_mode u later (some m) uid gid ≡ fault Fault.assertion)
unfolding new_mode
new_mode_retry u md later uid gid p given =
    (clear_bit (clear_bit md.mode s_isuid) s_isgid, ground arith, refl, ground arith)
