-- ===== src/Pcp/Protocol/Wire.antt =====
-- The packet formats of RFC 6887 as plain concatenations, against which the code is compared.
use go_nat.Base.{ℕ, ◌++◌, [], ◌∷◌}
use go_nat.Base.Bytes.{Bytes, be16, be32}
use go_nat.Addr.{as_16, Addr}

-- Section 7.1: version, opcode, reserved, lifetime and client address of a request.
abbrev pub wire_request : ℕ → ℕ → Addr → Bytes → Bytes
wire_request opcode lifetime client payload =
    (2 ∷ opcode ∷ 0 ∷ 0 ∷ []) ++ (be32 lifetime ++ (as_16 client ++ payload))

-- Section 11.1: the MAP payload, with the options that follow it.
abbrev pub wire_map : Bytes → ℕ → ℕ → ℕ → Addr → Bytes → Bytes
wire_map nonce protocol internal external ip options =
    nonce
    ++ ((protocol ∷ 0 ∷ 0 ∷ 0 ∷ []) ++ (be16 internal ++ (be16 external ++ (as_16 ip ++ options))))

-- Section 7.2: the header of a response. `reserved` is the twelve bytes that a client ignores.
abbrev pub wire_response : ℕ → ℕ → ℕ → ℕ → ℕ → ℕ → Bytes → Bytes → Bytes
wire_response version opcode unused code lifetime epoch reserved payload =
    (version ∷ opcode ∷ unused ∷ code ∷ [])
    ++ (be32 lifetime ++ (be32 epoch ++ (reserved ++ payload)))
