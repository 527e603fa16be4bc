-- ===== src/Blocks/Extends.antt =====
-- Sealing and the agent's chain (`seal` and `verify_chain` of src/mark/memory/block_chain.py).
use mark_sdk.Blocks.Store.{Store}
