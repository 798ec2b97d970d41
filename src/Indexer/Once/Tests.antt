-- ===== src/Indexer/Once/Tests.antt =====
-- A run of `indexChainOnce` of _backend/apps/worker/src/indexer.ts on a small chain, and the
-- theorem at it.
use enclave_developer.Prelude.{refl, inl, [], ◌∷◌, none, some, true, false}
use enclave_developer.Prelude.Text.{Text, codes, same}
use enclave_developer.Indexer.World.{CursorStatus, World, Client}
use enclave_developer.Indexer.Once.{index_chain_once}
use enclave_developer.Indexer.Once.Tables.{cursor_row}
use enclave_developer.Indexer.Once.Setup.{Options}
use enclave_developer.Indexer.Once.Guard.{Guarded}
use enclave_developer.Indexer.Once.Safety.{index_chain_once-Guarded}

abbrev scope : Text
scope = codes "enclave-v2:31337:id"

-- A chain of four blocks whose blocks all have one hash, and no logs.
abbrev client : Client
client = record {
  chain_id = λ t. some 31337;
  block_number = λ t. some 3;
  block = λ t n.
      some (record { number = some n; hash = some (codes "0xb"); parent_hash = codes "0xb" });
  logs = λ t source from to. some [];
  commit = λ identity. codes "id";
}

abbrev options : Options
options = record {
  addresses = record {
    verifier = none;
    meter = none;
    fee_vault = none;
    registry = some (codes "0x00000000000000000000000000000000000000aa");
  };
  chain_id = some 31337;
  confirmations = none;
  deployment_id = none;
  reorg_window = none;
  batch_size = none;
}

-- The cursor is active at block 1, and its saved history is not what the chain has.
abbrev world : World
world = record {
  db = record {
    events = [];
    cursors =
        cursor_row scope 2 (record { number = 1; hash = codes "0xc" } ∷ []) CursorStatus.active
        ∷ [];
    models =
        record {
          model_hash = codes "m";
          code_hash = codes "c";
          version = codes "chain";
          provider = codes "p";
          approved = true;
          revoked = false;
          listing_id = some 1;
          chain_scope = some scope;
        }
        ∷ [];
  };
  clock = 0;
}

world-Guarded : Guarded scope world.db
unfolding same
world-Guarded = inl (_, refl, refl)

index_chain_once-Guarded_example : Guarded scope (index_chain_once client options world).1.db
index_chain_once-Guarded_example = index_chain_once-Guarded scope client options world world-Guarded
