-- ===== src/Socket/ServiceId/Agrees.antt =====
-- `genServiceID` of the socketIO service against that of the Flask service.
use versatile.Base.{◌+◌, String, ◌≡◌, arith}
use versatile.Py.Value.{ok, Value, str}
use versatile.Py.Exec.{lift, gets, modify, ◌>>=◌}
use versatile.Resolver.{Server, Resolver}
use versatile.Resolver.ServiceId.{four_digits}
use versatile.Resolver.ServiceId as Flask
use versatile.Socket.{SocketResolver}
use versatile.Socket.ServiceId.{service_id, gen_service_id}

pub ids_agree :
    (service : Value) (manage_str id : String)
    → Flask.service_id service manage_str ≡ str id
    → service_id service manage_str ≡ ok (str id)
unfolding service_id Flask.service_id
ids_agree service manage_str id h = ground arith

module _ (V : Server) where
  -- With the same number in `manageNum`, where the Flask service makes a text as the ID of a service,
  -- the socketIO service makes the same text, and both leave the same number.
  pub gen_service_id_agrees :
      (service : Value) (id : String) (s : Resolver V.State) (t : SocketResolver V.State)
      → s.manage_num ≡ t.manage_num
      → (Flask.gen_service_id V service s).0 ≡ ok (str id)
      → ((gen_service_id V service t).0 ≡ ok (str id))
        × ((gen_service_id V service t).1.manage_num
            ≡ (Flask.gen_service_id V service s).1.manage_num)
  unfolding gen_service_id Flask.gen_service_id gets modify lift ◌>>=◌
  gen_service_id_agrees service id s t same made =
      let text : Flask.service_id service (four_digits (t.manage_num + 1)) ≡ str id =
        rw⁻¹ same cc in
      (ids_agree service (four_digits (t.manage_num + 1)) id text, omega arith)
