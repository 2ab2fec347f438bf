-- ===== src/Guid/Tests.antt =====
-- A run of the GUID parser, and an instance of the round trip.
use nebula_os.Common.{◌≡◌, some, arith}
use nebula_os.Guid.{string_to_guid_mixed, guid_to_string}
use nebula_os.Guid.RoundTrip.{guid, mixed-to_string}

mixed-to_string_example :
    string_to_guid_mixed
      (guid_to_string (guid 0xC12A7328 0xF81F 0x11D2 0xBA 0x4B 0 0xA0 0xC9 0x3E 0xC9 0x3B))
    ≡ some (guid 0xC12A7328 0xF81F 0x11D2 0xBA 0x4B 0 0xA0 0xC9 0x3E 0xC9 0x3B)
mixed-to_string_example =
    mixed-to_string 0xC12A7328 0xF81F 0x11D2 0xBA 0x4B 0 0xA0 0xC9 0x3E 0xC9 0x3B (omega arith)
      (omega arith) (omega arith) (omega arith) (omega arith) (omega arith) (omega arith)
      (omega arith) (omega arith) (omega arith) (omega arith)
