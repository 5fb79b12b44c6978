-- ===== src/Socket/Leave.antt =====
-- `Leave` of the socketIO service.
use versatile.Base.{◌<>◌}
use versatile.Py.Value.{Value, get}
use versatile.Py.Text.{repr_int}
use versatile.Py.Text.Number.{to_int}
use versatile.Py.Exec.{lift, try_except, ◌>>=◌, ◌>>◌}
use versatile.Resolver.{Server}
use versatile.Socket.{Act, connect, execute, commit, emit, error_message}

module _ (V : Server) where
  -- The body of the `try` up to its answer.
  unfoldable pub leave_work : Value → Act V Unit
  leave_work content = do
    device ← lift (get content "deviceID")
    device ← lift (to_int device)
    let device_id = repr_int device
    connect V
    execute V ("DELETE from Device where deviceID='" <> device_id <> "'")
    execute V ("DELETE from Service where deviceID='" <> device_id <> "'")
    execute V ("DELETE from Neighbor where deviceID='" <> device_id <> "'")
    commit V

  unfoldable pub leave : Value → Act V Unit
  leave content =
      try_except (do leave_work content; emit V "Lack" (error_message 0))
        (λ e. emit V "Lack" (error_message 1))
