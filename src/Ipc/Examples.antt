-- ===== src/Ipc/Examples.antt =====
-- The socket's theorems at concrete inputs.
use x_pilot.Base.{
  ℕ, ◌≡◌, ◌<◌, refl, Option, some, List, done, [], ◌∷◌, ◌++◌, length, take, drop, zero, suc, arith,
  ap,
}
use x_pilot.Base.Word.{Bytes}
use x_pilot.Platform.Sample.{sample_json, sample_socket, Value, num}
use x_pilot.Protocol.Frame.{frames}
use x_pilot.Ipc.{server_recv_frame, client_recv_frame}
use x_pilot.Ipc.Delivery.{IsWaitall, IsSendable, ServerReads, ClientReads, frames_arrive}
use x_pilot.Ipc.Bounds.{noting, IsModest, recv_frame_bound}
use x_pilot.Ipc.Agreement.{Alike, client_like_server}

take_short : (n : ℕ) (xs : Bytes) → length xs < n → take n xs ≡ xs
take_short zero xs h = absurd (omega arith)
take_short (suc n) [] h = refl
take_short (suc n) (x ∷ xs) h = ap (◌∷◌ x) (take_short n xs (omega arith))

abbrev waitall : IsWaitall sample_socket
waitall = record {
  pending = λ c. c;
  reads = λ c n h. (drop n c, refl, refl);
  ends = λ c n h. (drop n c, ap (λ t. (some t, drop n c)) (take_short n c h));
}

num-IsSendable : (n : ℕ) → 0 < n → n < 65 → IsSendable sample_json (num n)
num-IsSendable n h k = ground arith

frames_arrive_example :
    ((d : Bytes) × ServerReads sample_json sample_socket waitall
        (frames ((7 ∷ []) ∷ (8 ∷ []) ∷ []) ++ 0 ∷ [])
        (num 7 ∷ num 8 ∷ [])
        d
      × (d ≡ 0 ∷ []))
    × ((d : Bytes) × ClientReads sample_json sample_socket waitall
          (frames ((7 ∷ []) ∷ (8 ∷ []) ∷ []) ++ 0 ∷ [])
          (num 7 ∷ num 8 ∷ [])
          d
        × (d ≡ 0 ∷ []))
frames_arrive_example =
    frames_arrive sample_json sample_socket waitall (frames ((7 ∷ []) ∷ (8 ∷ []) ∷ []) ++ 0 ∷ [])
      (num 7 ∷ num 8 ∷ []) (0 ∷ [])
      (
        num-IsSendable 7 (omega arith) (omega arith),
        (num-IsSendable 8 (omega arith) (omega arith), tt),
      )
      refl

client_like_server_example :
    Alike sample_json sample_socket
      (server_recv_frame sample_json sample_socket (0 ∷ 0 ∷ 0 ∷ 1 ∷ 69 ∷ []))
      (client_recv_frame sample_json sample_socket (0 ∷ 0 ∷ 0 ∷ 1 ∷ 69 ∷ []))
client_like_server_example =
    client_like_server sample_json sample_socket (0 ∷ 0 ∷ 0 ∷ 1 ∷ 69 ∷ []) refl

recv_frame_bound_example :
    ((j : Option Value) (d : Bytes × List ℕ)
      → server_recv_frame sample_json (noting sample_socket) (0 ∷ 0 ∷ 0 ∷ 1 ∷ 7 ∷ [], [])
        ≡ done (j, d)
      → IsModest d.1
        × (server_recv_frame sample_json sample_socket (0 ∷ 0 ∷ 0 ∷ 1 ∷ 7 ∷ []) ≡ done (j, d.0)))
    × IsModest
        (client_recv_frame sample_json (noting sample_socket) (0 ∷ 0 ∷ 0 ∷ 1 ∷ 7 ∷ [], [])).1.1
    × ((client_recv_frame sample_json (noting sample_socket) (0 ∷ 0 ∷ 0 ∷ 1 ∷ 7 ∷ [], [])).0
        ≡ (client_recv_frame sample_json sample_socket (0 ∷ 0 ∷ 0 ∷ 1 ∷ 7 ∷ [])).0)
recv_frame_bound_example = recv_frame_bound sample_json sample_socket (0 ∷ 0 ∷ 0 ∷ 1 ∷ 7 ∷ [])
