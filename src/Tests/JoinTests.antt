-- ===== src/Tests/JoinTests.antt =====
-- A join of the manager that stores one interface and one neighbor.
use versatile.Base.{String, List, [], ◌∷◌}
use versatile.Py.Value.{str, list_of, Fields}
use versatile.Manager.{Manager, fields}
use versatile.Manager.Join.Stored.{dicts}
use versatile.Tests.Sample.{start}

abbrev codes : List Fields
codes = fields (("hwAddress", str "aa") ∷ ("ipv4", str "10.0.0.1") ∷ []) ∷ []

abbrev neighbors : List Fields
neighbors = fields (("neighborFlexID", str "b") ∷ []) ∷ []

abbrev payload : Fields
payload = fields (
    ("relay", str "none")
    ∷ ("uniqueCodes", list_of (dicts codes))
    ∷ ("neighbors", list_of (dicts neighbors))
    ∷ [])

abbrev device_queries : List String
device_queries =
    "INSERT INTO Device SET deviceId = '4a3', relay = 'none', pubKey = 'None', ifaceType = 'NULL', hwAddress = 'aa', ipv4 = '10.0.0.1', wifiSSID = 'NULL'"
    ∷ []

abbrev neighbor_queries : List String
neighbor_queries =
    "INSERT INTO Neighbor SET neighborIface = 'NULL', neighborIpv4 = 'NULL', neighborHwAddress = 'NULL', neighborId = 'b', deviceId = '4a3'"
    ∷ []

abbrev used_once : Manager (List String)
used_once = start ("SELECT * FROM Device WHERE deviceId = '0a3'" ∷ [])
