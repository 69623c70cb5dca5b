-- ===== src/Verifier/Snapshot/Tests.antt =====
-- Samples for the checks of a snapshot block: it lists the blocks of two accounts.
use naive_vite.Base.{◌≡◌, ◌↔◌, refl, some, none, [], ◌∷◌, if◌then◌else◌, ◌==◌, ok, All}
use naive_vite.Base.Int.{pos}
use naive_vite.Types.{SnapshotBlock}
use naive_vite.Samples.{second, next_block, genesis_block}
use naive_vite.Verifier.Reader.{ChainReader}
use naive_vite.Verifier.Task.{VerifyTask, pending, success, requests, verify_task}
use naive_vite.Verifier.Snapshot.{verify_accounts, verify_referred}
use naive_vite.Verifier.Snapshot.Verdict.{
  IsPresent, missing, verify_referred_success, verify_referred-requests,
}

abbrev listing : SnapshotBlock
listing = record next_block {
  accounts =
      record { hash = 101; height = pos 1; addr = 7 }
      ∷ record { hash = 205; height = pos 4; addr = 8 }
      ∷ [];
}

-- Only account 7 has blocks.
abbrev half : ChainReader
half = record {
  genesis_snapshot = genesis_block;
  head_snapshot = some next_block;
  get_snapshot_by_hash_h = λ _. some next_block;
  head_account = λ a. if a == 7 then some second else none;
  get_account_by_hash_h = λ _ _. none;
  get_account_by_hash = λ a _. if a == 7 then some second else none;
  get_account_by_height = λ a _. if a == 7 then some second else none;
  get_account_by_source_hash = λ _ _. ok none;
}

verify_referred_success_example :
    ((verify_referred half (pos 0) (pos 0) listing).result ≡ success)
    ↔ All (IsPresent half) listing.accounts
verify_referred_success_example = verify_referred_success half (pos 0) (pos 0) listing

half_waits : (verify_referred half (pos 0) (pos 0) listing).result ≡ pending
unfolding verify_referred verify_accounts
half_waits = refl

verify_referred-requests_example :
    (t : VerifyTask) × ((verify_referred half (pos 0) (pos 0) listing).task ≡ some t)
    × (requests (verify_task t) ≡ missing half listing.accounts)
verify_referred-requests_example = verify_referred-requests half (pos 0) (pos 0) listing half_waits
