-- ===== src/Snowflake/Samples.antt =====
-- A generator whose clock is set back, and the theorems at it.
use data_factory.Base.{ℕ, ◌+◌, ◌*◌, ◌≡◌, refl, some, List, [], ◌∷◌, arith}
use data_factory.Snowflake.{
  epoch, Generator, wait_next_ms, compose, Issued, issue, caught_up, issue_at, next_id, issue_all,
}
use data_factory.Snowflake.Order.{Fits, Last, Increasing, issue_all-Increasing, next_id_total}

-- Its next number at the time of its last identifier would be 4096.
abbrev busy : Generator
busy = record {
  datacenter_id = 1;
  machine_id = 2;
  last_timestamp = some (epoch + 10);
  sequence = 4095;
}

abbrev clock : List ℕ
clock = (epoch + 9) ∷ (epoch + 10) ∷ (epoch + 11) ∷ (epoch + 11) ∷ []

abbrev before : ℕ
before = 10 * 4194304 + 131072 + 2 * 4096 + 4095

abbrev issued : List ℕ
issued = (11 * 4194304 + 131072 + 2 * 4096) ∷ (11 * 4194304 + 131072 + 2 * 4096 + 1) ∷ []

issues : issue_all 2 busy clock ≡ some issued
unfolding issue_all next_id caught_up issue_at issue wait_next_ms compose
issues = refl

busy-Fits : Fits busy
busy-Fits = record { datacenter = omega arith; machine = omega arith; sequence = omega arith }

busy-Last : Last busy before
unfolding compose
busy-Last = record { time = epoch + 10; is_last = refl; after_epoch = omega arith; is_id = refl }

issue_all-Increasing_example : Increasing before issued
issue_all-Increasing_example =
    issue_all-Increasing 2 busy before clock issued busy-Fits busy-Last issues

next_id_total_example : (r : Issued) × (next_id busy clock ≡ some r)
next_id_total_example =
    next_id_total busy (epoch + 10) (epoch + 9) ((epoch + 10) ∷ (epoch + 11) ∷ (epoch + 11) ∷ [])
      refl refl
