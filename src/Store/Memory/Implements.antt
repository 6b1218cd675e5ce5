-- ===== src/Store/Memory/Implements.antt =====
-- rp/store/memory/store.go implements the interface of rp/store/store.go.
use lanyard.Store.{CorrelationStore}
use lanyard.Store.Memory.{Store, consume_correlation}

abbrev pub memory_store : CorrelationStore
memory_store = record { S = Store; consume = consume_correlation }
