-- ===== src/Transfers/Cache.antt =====
-- pkg/transfer/cache.go: the prepared transfers that wait for a signature. A maximal size of 0 is none.
use canton_middleware.Prelude.{
  ℕ, String, Bool, Option, none, some, List, [], ◌∷◌, if◌then◌else◌, ◌+◌, ◌&&◌, leb, ltb, length,
}
use canton_middleware.Prelude.Assoc.{lookup, put, remove}
use canton_middleware.Exec.{Result, ok, err}
use canton_middleware.Rpc.Store.{hash_key}
use canton_middleware.Transfers.Types.{PreparedTransfer}

pub data CacheError : Type 0 where
  transfer_not_found transfer_expired cache_full : CacheError

abbrev pub Entries : Type 0
Entries = List (String × PreparedTransfer)

abbrev pub is_full : ℕ → Entries → Bool
is_full max_size entries = ltb 0 max_size && leb max_size (length entries)

-- The transfer as it is stored, with its deadline.
unfoldable pub put_transfer :
    ℕ → ℕ → ℕ → PreparedTransfer → Entries → Result CacheError PreparedTransfer × Entries
put_transfer ttl max_size now t entries =
    if is_full max_size entries then (err cache_full, entries) else (
      ok (record t { expires_at = now + ttl }),
      put t.transfer_id (record t { expires_at = now + ttl }) entries,
    )

abbrev pub taken :
    ℕ → Option PreparedTransfer → String → Entries → Result CacheError PreparedTransfer × Entries
taken now none id entries = (err transfer_not_found, entries)
taken now (some t) id entries =
    (if ltb t.expires_at now then err transfer_expired else ok t, remove id entries)

unfoldable pub get_and_delete : ℕ → String → Entries → Result CacheError PreparedTransfer × Entries
get_and_delete now id entries = taken now (lookup id entries) id entries

unfoldable pub cleanup : ℕ → Entries → Entries
cleanup now [] = []
cleanup now ((id, t) ∷ entries) =
    let rest = cleanup now entries in if ltb t.expires_at now then rest else (id, t) ∷ rest
