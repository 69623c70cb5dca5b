-- ===== src/Verifier/Account.antt =====
-- verifier/account_verifier.go: the checks of an account block. Error texts are left out.
pub mod Rules
pub mod Verdict
pub mod Waiting
mod Tests
use naive_vite.Base.{
  ℕ, Bool, true, false, Option, none, some, List, [], ◌∷◌, ◌==◌, ◌&&◌, ◌||◌, not, if◌then◌else◌,
  Result, ok, err, panic, ◌>>=◌,
}
use naive_vite.Base.Int.{ℤ, pos, ◌+ℤ◌, ltb_ℤ, leb_ℤ, ◌==ℤ◌}
use naive_vite.Types.{
  AccountHashH, AccountStateBlock, BlockType, is_genesis, is_received, is_send, empty_str,
}
use naive_vite.Verifier.Reader.{ChainReader}
use naive_vite.Verifier.Task.{
  VerifyResult, pending, fail, success, is_fail, is_success, VerifyTask, pending_snapshot,
  pending_account,
}

pub record AccountBlockVerifyStat : Type 0 where
  pub referred_snapshot_result : VerifyResult
  pub referred_self_result : VerifyResult
  pub referred_from_result : VerifyResult
  pub task : VerifyTask

-- The stat of a new verification at the time `now` and the fork version `version`.
unfoldable pub new_verify_stat : ℤ → ℤ → AccountBlockVerifyStat
new_verify_stat now version = record {
  referred_snapshot_result = pending;
  referred_self_result = pending;
  referred_from_result = pending;
  task = record { tasks = []; version = version; failed = false; t = now };
}

unfoldable pub verify_result : AccountBlockVerifyStat → VerifyResult
verify_result s =
    if is_fail s.referred_self_result
      || is_fail s.referred_from_result
      || is_fail s.referred_snapshot_result
    then fail
    else (if is_success s.referred_self_result
          && is_success s.referred_from_result
          && is_success s.referred_snapshot_result
        then success
        else pending)

unfoldable pub is_listed : AccountStateBlock → List AccountHashH → Bool
is_listed block [] = false
is_listed block (a ∷ rest) =
    a.hash == block.hash && a.height ==ℤ block.height || is_listed block rest

unfoldable pub verify_genesis :
    ChainReader → AccountStateBlock → AccountBlockVerifyStat → AccountBlockVerifyStat
unfolding is_listed
verify_genesis r block stat =
    if is_listed block r.genesis_snapshot.accounts
    then record stat {
      referred_from_result = success;
      referred_self_result = success;
      referred_snapshot_result = success;
    }
    else record stat { referred_self_result = fail }

unfoldable pub verify_snapshot :
    ChainReader → AccountStateBlock → AccountBlockVerifyStat → AccountBlockVerifyStat
verify_snapshot r block stat =
    elim (r.get_snapshot_by_hash_h
      (record { hash = block.snapshot_hash; height = block.snapshot_height })) [
        | some _ ↦ record stat { referred_snapshot_result = success }
        | none ↦ record stat {
          referred_snapshot_result = pending;
          task = pending_snapshot stat.task block.snapshot_hash block.snapshot_height;
        }
      ]

unfoldable pub check_genesis : ChainReader → AccountStateBlock → VerifyResult
check_genesis r block = elim (r.head_account block.signer) [
  | some _ ↦ fail
  | none ↦
      if not (block.pre_hash == empty_str) || not (block.modified_amount ==ℤ block.amount)
      then fail
      else success
]

-- The checks of `checkSelfAmount` against the last block of the chain.
unfoldable pub check_against : AccountStateBlock → AccountStateBlock → VerifyResult
check_against last block =
    if not (last.hash == block.pre_hash)
    then fail
    else (if ltb_ℤ block.snapshot_height last.snapshot_height
        then fail
        else (if is_send block.block_type && ltb_ℤ (pos 0) block.modified_amount
            then fail
            else (if is_received block.block_type && ltb_ℤ block.modified_amount (pos 0)
                then fail
                else (if last.amount +ℤ block.modified_amount ==ℤ block.amount
                      && ltb_ℤ (pos 0) block.amount
                    then success
                    else fail))))

unfoldable pub check_self_amount : ChainReader → AccountStateBlock → VerifyResult
check_self_amount r block = elim (r.head_account block.signer) [
  | none ↦ fail
  | some last ↦ check_against last block
]

-- `verifySelf`: the result that it sets. It stops the verification exactly where that is a failure.
unfoldable pub verify_self : ChainReader → AccountStateBlock → Result VerifyResult
verify_self r block =
    if is_received block.block_type && block.height ==ℤ pos 0
    then ok (check_genesis r block)
    else (if is_received block.block_type
        then (elim (r.get_account_by_source_hash block.to block.source_hash) [
          | ok none ↦ ok (check_self_amount r block)
          | ok (some _) ↦ ok fail
          | err e ↦ err e
          | panic ↦ panic
        ])
        else ok (check_self_amount r block))

-- The checks of `checkFromAmount` against the source that is found.
unfoldable pub check_source : AccountStateBlock → AccountStateBlock → VerifyResult
check_source source block =
    if not (source.hash == block.source_hash)
    then fail
    else (if ltb_ℤ block.snapshot_height source.snapshot_height
        then fail
        else (if source.modified_amount +ℤ block.modified_amount ==ℤ pos 0 then success else fail))

-- Whether the sources found by height and by hash, where both are, have different hashes.
unfoldable pub sources_differ : Option AccountStateBlock → Option AccountStateBlock → Bool
sources_differ (some source) (some source2) = not (source2.hash == source.hash)
sources_differ _ _ = false

unfoldable pub check_from_amount : ChainReader → AccountStateBlock → VerifyResult
unfolding sources_differ
check_from_amount r block =
    let source = r.get_account_by_height block.from block.source_height in
    if sources_differ source (r.get_account_by_hash block.from block.source_hash)
    then fail
    else (elim source [ none ↦ pending | some s ↦ check_source s block ])

-- `verifyFrom`: the result that it sets, and the source that it waits for.
unfoldable pub verify_from :
    ChainReader → AccountStateBlock → AccountBlockVerifyStat → AccountBlockVerifyStat
verify_from r block stat =
    if is_received block.block_type
    then record stat {
      referred_from_result = check_from_amount r block;
      task = elim (check_from_amount r block) [
        | pending ↦
            pending_account stat.task block.from block.source_height block.source_hash (pos 1)
        | fail ↦ stat.task
        | success ↦ stat.task
      ];
    }
    else record stat { referred_from_result = success }

-- `VerifyReferred` at the time `now` and the fork version `version`.
unfoldable pub verify_referred :
    ChainReader → ℤ → ℤ → AccountStateBlock → Result AccountBlockVerifyStat
verify_referred r now version block =
    let stat = new_verify_stat now version in
    if is_genesis block.block_type then ok (verify_genesis r block stat) else (do
      self ← verify_self r block
      let stat1 = verify_snapshot r block stat
      let stat2 = record stat1 { referred_self_result = self }
      if is_fail self then ok stat2 else ok (verify_from r block stat2))
