-- ===== src/Memstore/Tests.antt =====
-- The operations on a store with one allocation of two short pages.
use cpc_cplink.Prelude.{ℕ, ◌≡◌, refl, true, some, [], ◌∷◌, take, arith}
use cpc_cplink.Memstore.{Memstore, slot, memstore_store_page_of_data}
use cpc_cplink.Memstore.Pages.{Stores, store-retrieve}
use cpc_cplink.Memstore.Files.{Loaded, memstore_load_data}
use cpc_cplink.Memstore.Load.{Keeps, memstore_load_data-Keeps}
use cpc_cplink.Memstore.Sample.{
  small_file, small_file-StdioLaws, one_used-StoreOk, has_page_1, one_used, one_used-IsValid,
  page_size_1,
}

store-retrieve_example :
    (m' : Memstore) × (memstore_store_page_of_data one_used 1 1 (1 ∷ 2 ∷ 3 ∷ 4 ∷ [])
      ≡ some (true, m'))
    × Stores one_used m' 1 1 (take (slot one_used 1).page_size (1 ∷ 2 ∷ 3 ∷ 4 ∷ []))
store-retrieve_example =
    store-retrieve one_used 1 1 (1 ∷ 2 ∷ 3 ∷ 4 ∷ []) one_used-IsValid has_page_1
      (omega (arith, page_size_1))

memstore_load_data_example :
    (r : Loaded ℕ) × (m' : Memstore) × (memstore_load_data small_file one_used 1 (65 ∷ []) 0
      ≡ some (r, m'))
    × Keeps one_used m' 1
memstore_load_data_example =
    memstore_load_data-Keeps small_file one_used 1 (65 ∷ []) 0 small_file-StdioLaws
      (λ file w. (2, refl)) one_used-StoreOk
