-- ===== src/Indexer/Fault.antt =====
-- What the chain indexer throws (_backend/apps/worker/src/{reorg,policy-sync,indexer}.ts), one
-- constructor for each error that the code makes; `rpc_failed` is what the RPC client throws.
pub data Fault : Type 0 where
  rpc_failed missing_header chain_mismatch bad_option : Fault
  invalid_history not_contiguous no_matching_checkpoint rebuild_required fork_too_deep : Fault
  moves_backwards reorganized_headers reorganized_events : Fault
  malformed_listing bad_listing_id outside_range noncanonical_block invalid_payload : Fault
