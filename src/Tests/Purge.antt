-- ===== src/Tests/Purge.antt =====
-- The theorems of Documents.Removal.Purge at sample data.
use cogno_engram.Prelude.{◌≡◌, refl, false, not, filter, any, length, All}
use cogno_engram.Text.{str_eq, codes, strip, is_blank}
use cogno_engram.Errors.{ok}
use cogno_engram.Documents.Rules.{require_owner}
use cogno_engram.Documents.State.{Documents}
use cogno_engram.Documents.Removal.{in_subtree, purge_owner_subtree, stored_original_bytes}
use cogno_engram.Documents.Removal.Complete.{Attached}
use cogno_engram.Tests.DocumentSamples.{library, library-Attached}
use cogno_engram.Documents.Removal.Purge.{purge_owner_subtree_complete}

subtree_allowed : require_owner (codes "t1") ≡ ok tt
unfolding require_owner strip is_blank
subtree_allowed = refl

purge_owner_subtree_complete_example :
    (st' : Documents) × (purge_owner_subtree 9 (codes "t1") (codes "ana") library
      ≡ ok (st', length (filter (in_subtree (codes "t1")) library.docs)))
    × Attached st'
    × All (λ d. in_subtree (codes "t1") d ≡ false) st'.docs
    × (stored_original_bytes (codes "t1") st' ≡ ok 0)
    × (st'.docs
        ≡ filter
            (λ d. not (any (λ r. str_eq d.id r.id) (filter (in_subtree (codes "t1")) library.docs)))
            library.docs)
purge_owner_subtree_complete_example =
    purge_owner_subtree_complete 9 (codes "t1") (codes "ana") library subtree_allowed
      library-Attached
