-- ===== src/Samples/Kernels.antt =====
-- A kernel that takes every block, and a world with it.
use nns.Base.{[], false, none, some, true, ◌+◌, ◌∷◌}
use nns.Base.Result.{ok}
use nns.Base.Text.{codes}
use nns.Follower.Monad.{Env, KernelApi, World}
use nns.Noun.{Noun, atom, make_tag, ◌⸬◌}
use nns.Rpc.{SettlementConfig}
use nns.Samples.Nouns.{sample_nouns}
use nns.State.{new_hull}

-- what `/scan-state` shows: the cursor at block 62999, with digest 4
abbrev pub sample_cursor : Noun
sample_cursor = atom 0 ⸬ atom 0 ⸬ atom 62999 ⸬ atom 4 ⸬ atom 0 ⸬ atom 0

-- the report on a block
abbrev pub sample_report : Noun
sample_report = make_tag ⦃lib = sample_nouns⦄ "scan-block-done" ⸬ atom 63000 ⸬ atom 5 ⸬ atom 7

instance abbrev pub sample_kernel : KernelApi
sample_kernel = record {
  State = Unit {0};
  peek = λ s path. ok sample_cursor;
  poke = λ s cause. ok (sample_report ∷ []);
  after = λ s cause. s;
}

abbrev pub sample_settlement : SettlementConfig
sample_settlement = record {
  is_local = false;
  chain_endpoint = some (codes "http://node");
  accept_timeout_secs = 5;
}

abbrev pub sample_env : Env
sample_env = record {
  now_epoch_ms = λ reading. 1000 + reading;
  hull_free = λ reading. true;
  batch_blocks = none;
  persist_every = none;
}

abbrev pub sample_world : World (Unit {0})
sample_world = record {
  hull = new_hull (codes "out") sample_settlement;
  kernel = tt;
  scans_since_checkpoint = 0;
  readings = 0;
}
