-- ===== src/Server/Order.antt =====
-- The server in order: the indices of both queues are inside their arrays, and every allocation has
-- its block.
use cpc_cplink.Prelude.{◌≡◌, Bool, Option, some, refl}
use cpc_cplink.Queue.{Queue}
use cpc_cplink.Queue.Valid.{IsValid}
use cpc_cplink.Memstore.{Memstore}
use cpc_cplink.Memstore.Keeps.{StoreOk}
use cpc_cplink.Server.{Server}

pub record ServerOk (s : Server) : Type 0 where
  pub in_ok : IsValid s.in_queue
  pub out_ok : IsValid s.out_queue
  pub store_ok : StoreOk s.memstore

-- A handler that returns, and leaves the server in order.
abbrev pub Returns : Option (Bool × Server) → Type 0
Returns o = (done : Bool) × (s' : Server) × (o ≡ some (done, s')) × ServerOk s'

pub returned : (done : Bool) (s : Server) → ServerOk s → Returns (some (done, s))
returned done s ok = (done, s, refl, ok)

pub with_in :
    (s : Server) (q : Queue) → ServerOk s → IsValid q → ServerOk (record s { in_queue = q })
with_in s q ok v = record { in_ok = v; out_ok = ok.out_ok; store_ok = ok.store_ok }

pub with_out :
    (s : Server) (q : Queue) → ServerOk s → IsValid q → ServerOk (record s { out_queue = q })
with_out s q ok v = record { in_ok = ok.in_ok; out_ok = v; store_ok = ok.store_ok }

pub with_store :
    (s : Server) (m : Memstore) → ServerOk s → StoreOk m → ServerOk (record s { memstore = m })
with_store s m ok v = record { in_ok = ok.in_ok; out_ok = ok.out_ok; store_ok = v }
