-- ===== src/Verifier/Account/Tests.antt =====
-- Samples for the checks of an account block: account 8 receives the transfer of account 7.
use naive_vite.Base.{◌≡◌, ◌≢◌, ◌↔◌, ◌⊎◌, refl, none, some, [], ok, arith}
use naive_vite.Base.Int.{pos, ◌+ℤ◌, ◌≤ℤ◌, int_laws}
use naive_vite.Types.{AccountStateBlock, unknown, received}
use naive_vite.Samples.{first, second, next_block, genesis_block}
use naive_vite.Verifier.Reader.{ChainReader}
use naive_vite.Verifier.Task.{pending, success, requests, requests_of, pending_account, verify_task}
use naive_vite.Verifier.Account.{
  AccountBlockVerifyStat, verify_referred, verify_result, new_verify_stat, verify_snapshot,
  verify_self, check_self_amount, check_against, verify_from, check_from_amount, check_source,
  sources_differ,
}
use naive_vite.Verifier.Account.Rules.{IsAnchored, IsFirst, IsLater, IsFunded}
use naive_vite.Verifier.Account.Verdict.{verify_referred_iff}
use naive_vite.Verifier.Account.Waiting.{receipt_moves_amount, unknown_type_mints, pending_requests}

abbrev holder : AccountStateBlock
holder = record first { hash = 110; signer = 8 }

abbrev receipt : AccountStateBlock
receipt = record holder {
  height = pos 1;
  hash = 111;
  pre_hash = 110;
  amount = pos 230;
  modified_amount = pos 30;
  snapshot_height = pos 2;
  snapshot_hash = 901;
  block_type = received;
  from = 7;
  to = 8;
  source_hash = 101;
  source_height = pos 1;
}

abbrev minted : AccountStateBlock
minted = record receipt { block_type = unknown (pos 9) }

-- What a node knows that has the transfer, and what one knows that has not.
abbrev known : ChainReader
known = record {
  genesis_snapshot = genesis_block;
  head_snapshot = some next_block;
  get_snapshot_by_hash_h = λ _. some next_block;
  head_account = λ _. some holder;
  get_account_by_hash_h = λ _ _. none;
  get_account_by_hash = λ _ _. some second;
  get_account_by_height = λ _ _. some second;
  get_account_by_source_hash = λ _ _. ok none;
}

abbrev behind : ChainReader
behind = record known { get_account_by_hash = λ _ _. none; get_account_by_height = λ _ _. none }

verify_referred_iff_example :
    ((stat : AccountBlockVerifyStat) × (verify_referred known (pos 5) (pos 0) receipt ≡ ok stat)
      × (verify_result stat ≡ success))
    ↔ (IsAnchored known receipt
        × (IsFirst known receipt ⊎ IsLater known receipt)
        × IsFunded known receipt)
verify_referred_iff_example = verify_referred_iff known receipt (pos 5) (pos 0) refl

program : Unit {0}
unfolding verify_referred verify_result new_verify_stat verify_snapshot verify_self
    check_self_amount check_against verify_from check_from_amount check_source sources_differ
    requests requests_of pending_account ◌+ℤ◌
program = tt

known_stat : AccountBlockVerifyStat
unfolding program
known_stat =
    verify_from known receipt
      (record (verify_snapshot known receipt (new_verify_stat (pos 5) (pos 0))) {
        referred_self_result = success;
      })

behind_stat : AccountBlockVerifyStat
unfolding program
behind_stat =
    verify_from behind receipt
      (record (verify_snapshot behind receipt (new_verify_stat (pos 5) (pos 0))) {
        referred_self_result = success;
      })

known_run : verify_referred known (pos 5) (pos 0) receipt ≡ ok known_stat
unfolding program known_stat
known_run = refl

known_succeeds : verify_result known_stat ≡ success
unfolding program known_stat
known_succeeds = refl

behind_run : verify_referred behind (pos 5) (pos 0) receipt ≡ ok behind_stat
unfolding program behind_stat
behind_run = refl

behind_waits : verify_result behind_stat ≡ pending
unfolding program behind_stat
behind_waits = refl

receipt_moves_amount_example :
    (last : AccountStateBlock) × (some holder ≡ some last)
    × (source : AccountStateBlock) × (some second ≡ some source)
    × (source.hash ≡ 101)
    × (pos 230 +ℤ source.modified_amount ≡ last.amount)
    × (source.modified_amount ≤ℤ pos 0)
receipt_moves_amount_example =
    receipt_moves_amount known (pos 5) (pos 0) receipt known_stat refl (λ e. ground arith) known_run
      known_succeeds

unknown_type_mints_example :
    (stat : AccountBlockVerifyStat) × (verify_referred known (pos 5) (pos 0) minted ≡ ok stat)
    × (verify_result stat ≡ success)
unfolding ◌+ℤ◌
unknown_type_mints_example =
    unknown_type_mints known (pos 5) (pos 0) minted (pos 9) holder refl (next_block, refl) refl refl
      (omega int_laws) refl (omega int_laws)

pending_requests_example : requests (verify_task behind_stat.task) ≢ []
pending_requests_example =
    pending_requests behind (pos 5) (pos 0) receipt behind_stat behind_run behind_waits
