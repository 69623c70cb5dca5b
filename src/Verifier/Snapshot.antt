-- ===== src/Verifier/Snapshot.antt =====
-- verifier/snapshot_verifier.go: the accounts that a snapshot block lists are looked up on their
-- chains. Error texts are left out.
pub mod Verdict
mod Tests
use naive_vite.Base.{
  ℕ, zero, suc, ◌+◌, Option, none, some, List, [], ◌∷◌, ◌==◌, if◌then◌else◌, length, Table, insert,
  false,
}
use naive_vite.Base.Int.{ℤ, pos}
use naive_vite.Types.{Address, AccountHashH, SnapshotBlock, AccountStateBlock}
use naive_vite.Verifier.Reader.{ChainReader}
use naive_vite.Verifier.Task.{VerifyResult, pending, fail, success, VerifyTask, pending_account}

pub record SnapshotBlockVerifyStat : Type 0 where
  pub result : VerifyResult
  pub results : Table VerifyResult
  pub task : Option VerifyTask

-- The state of the loop of `VerifyReferred`: the count `i`, the results and the task.
pub record Progress : Type 0 where
  pub i : ℕ
  pub results : Table VerifyResult
  pub task : VerifyTask

-- The loop, and what follows it: `total` is the number of accounts of the block.
unfoldable pub verify_accounts :
    ChainReader → ℕ → List AccountHashH → Progress → SnapshotBlockVerifyStat
verify_accounts r total [] p =
    if p.i == total
    then record { result = success; results = p.results; task = none }
    else record { result = pending; results = p.results; task = some p.task }
verify_accounts r total (v ∷ rest) p = elim (r.get_account_by_height v.addr v.height) [
  | none ↦ verify_accounts r total rest (record p {
    results = insert v.addr pending p.results;
    task = pending_account p.task v.addr v.height v.hash (pos 1);
  })
  | some block ↦
      let next =
        verify_accounts r total rest
          (record p { i = p.i + 1; results = insert v.addr success p.results }) in
      if block.hash == v.hash
      then next
      else record { result = fail; results = insert v.addr fail p.results; task = none }
]

unfoldable pub verify_referred : ChainReader → ℤ → ℤ → SnapshotBlock → SnapshotBlockVerifyStat
unfolding verify_accounts
verify_referred r now version block =
    verify_accounts r (length block.accounts) block.accounts (record {
      i = 0;
      results = [];
      task = record { tasks = []; version = version; failed = false; t = now };
    })
