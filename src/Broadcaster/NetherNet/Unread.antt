-- ===== src/Broadcaster/NetherNet/Unread.antt =====
-- src/nethernet_broadcaster.rs against src/discovery.rs: the widths of the names' lengths differ.
use p2p_core.Base.{ℕ, err, length, ◌*◌, ◌∷◌, ◌≡◌, ◌≤◌, [], arith, false, leb, refl, true, ◌+◌}
use p2p_core.Base.Words.{Bytes, from_le}
use p2p_core.Discovery.NetherNet.{Skip, read_app_data}
use p2p_core.Broadcaster.NetherNet.{server_data}

read_app_data-far :
    (l c port : ℕ) (xs : Bytes)
    → length (4 ∷ l ∷ c ∷ xs) ≤ 256 * c
    → read_app_data (4 ∷ l ∷ c ∷ xs) port ≡ err Skip.skip
unfolding read_app_data
read_app_data-far l c port xs h =
    let version : leb (0 + 1) (length (4 ∷ l ∷ c ∷ xs)) ≡ true = ground arith in
    let name_len : leb (1 + 2) (length (4 ∷ l ∷ c ∷ xs)) ≡ true = ground arith in
    let name : leb (3 + from_le (l ∷ c ∷ [])) (length (4 ∷ l ∷ c ∷ xs)) ≡ false = ground arith in
    rw (version, name_len, name) refl

-- Discovery takes the first byte of a room's name for the high byte of its length, so it reads no room from a broadcaster's application data, unless the data is 256 times that byte long.
pub read_app_data-server_data :
    (c port : ℕ) (cs host_name slots : Bytes)
    → length (server_data (c ∷ cs) host_name slots) ≤ 256 * c
    → read_app_data (server_data (c ∷ cs) host_name slots) port ≡ err Skip.skip
unfolding read_app_data server_data
read_app_data-server_data c port cs host_name slots h = read_app_data-far _ c port _ h
