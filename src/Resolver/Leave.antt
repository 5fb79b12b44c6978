-- ===== src/Resolver/Leave.antt =====
-- `Leave` of the Flask service.
pub mod Statements
pub mod Joined
use versatile.Base.{String, ◌<>◌, List}
use versatile.Py.Value.{Value, get}
use versatile.Py.Text.{repr_int}
use versatile.Py.Text.Number.{to_int}
use versatile.Py.Exec.{pure, lift, try_except, ◌>>=◌, ◌>>◌}
use versatile.Resolver.{Server, Act, Reply, connect, execute, commit}
use versatile.Resolver.Update.{error_reply}

module _ (V : Server) where
  unfoldable pub leave_work : Value → Act V Reply
  leave_work json_dict = do
    device ← lift (get json_dict "deviceID")
    device ← lift (to_int device)
    let device_id = repr_int device
    connect V
    execute V ("DELETE from Device where deviceID='" <> device_id <> "'")
    execute V ("DELETE from Service where deviceID='" <> device_id <> "'")
    commit V
    pure (error_reply 0)

  unfoldable pub leave : Value → Act V Reply
  leave json_dict = try_except (leave_work json_dict) (λ e. pure (error_reply 1))
