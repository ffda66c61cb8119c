-- ===== src/Proto/Sync.antt =====
-- `SyncSession` of crates/adb-proto/src/sync.rs: stat, list and recv over a `sync:` stream.
-- The loops run on fuel, more of it than there are bytes to read, and each round reads some.
pub mod Receive
pub mod Stats
pub mod Fuel
pub mod Outputs
use adbrsync.Common.{
  true, false, ℕ, zero, suc, ◌+◌, ◌*◌, ◌/◌, ◌%◌, ◌^◌, Bool, not, ◌&&◌, ◌||◌, ltb, ◌==◌,
  if◌then◌else◌,
}
use adbrsync.Common.{List, [], ◌∷◌, ◌++◌, length, take, drop}
use adbrsync.Common.Text.{Text, codes, text_eq}
use adbrsync.Common.Int.{ℤ, pos, wrap_i64}
use adbrsync.Common.Result.{Result, ok, err}
use adbrsync.Proto.Bytes.{le, number_at}
use adbrsync.Proto.Error.{Error, protocol, sync}
use adbrsync.Proto.Stream.{Stream, Io, ◌>>=◌, ◌>>◌, return, throw, read_exact, write_all, flush}

abbrev pub id_stat : Text
id_stat = codes "STA2"

abbrev pub id_lstat : Text
id_lstat = codes "LST2"

abbrev pub id_list : Text
id_list = codes "LIS2"

abbrev pub id_dent : Text
id_dent = codes "DNT2"

abbrev pub id_recv : Text
id_recv = codes "RECV"

abbrev pub id_data : Text
id_data = codes "DATA"

abbrev pub id_done : Text
id_done = codes "DONE"

abbrev pub id_fail : Text
id_fail = codes "FAIL"

abbrev pub id_quit : Text
id_quit = codes "QUIT"

abbrev pub stat_body_len : ℕ
stat_body_len = 68

abbrev pub dent_body_len : ℕ
dent_body_len = 72

abbrev pub data_max : ℕ
data_max = 64 * 1024

pub record SyncStat : Type 0 where
  pub error : ℕ
  pub mode : ℕ
  pub size : ℕ
  pub mtime : ℤ

unfoldable pub exists : SyncStat → Bool
exists s = s.error == 0 && not (s.mode == 0)

-- `mode & 0o170000`: the bits above the lowest 12, of 16.
abbrev pub type_bits : ℕ → ℕ
type_bits mode = mode / 4096 % 16 * 4096

unfoldable pub is_dir : SyncStat → Bool
is_dir s = type_bits s.mode == 0o040000

unfoldable pub is_file : SyncStat → Bool
is_file s = type_bits s.mode == 0o100000

unfoldable pub is_symlink : SyncStat → Bool
is_symlink s = type_bits s.mode == 0o120000

pub record SyncDirEntry : Type 0 where
  pub name : Text
  pub stat : SyncStat

-- error, dev, ino, mode, nlink, uid, gid, size, atime, mtime, ctime
unfoldable pub parse_stat_body : Text → SyncStat
parse_stat_body body = record {
  error = number_at 0 4 body;
  mode = number_at 20 4 body;
  size = number_at 36 8 body;
  mtime = wrap_i64 (pos (number_at 52 8 body));
}

unfoldable pub send_request : Text → Text → Io (Unit {0})
send_request id payload = write_all (id ++ le 4 (length payload)) >> write_all payload >> flush

unfoldable pub stat_with : Text → Text → Io SyncStat
unfolding send_request parse_stat_body
stat_with id path =
    send_request id path
    >> (read_exact (4 + stat_body_len) >>= λ buf.
        if text_eq (take 4 buf) id then return (parse_stat_body (drop 4 buf)) else throw protocol)

unfoldable pub stat : Text → Io SyncStat
unfolding stat_with
stat = stat_with id_stat

unfoldable pub lstat : Text → Io SyncStat
unfolding stat_with
lstat = stat_with id_lstat

-- The texts that `from_utf8_lossy` makes of bytes are the library's.
module _ (lossy : Text → Text) where
  abbrev pub is_dots : Text → Bool
  is_dots name = text_eq name (codes ".") || text_eq name (codes "..")

  unfoldable pub list_loop : ℕ → List SyncDirEntry → Io (List SyncDirEntry)
  unfolding parse_stat_body
  list_loop zero entries = throw protocol
  list_loop (suc fuel) entries = read_exact (4 + dent_body_len) >>= λ buf.
      elim (text_eq (take 4 buf) id_done) [
        | true ↦ return entries
        | false ↦ elim (text_eq (take 4 buf) id_dent) [
          | false ↦ throw protocol
          | true ↦ read_exact (number_at (4 + stat_body_len) 4 buf) >>= λ name.
              elim (is_dots (lossy name)) [
                | true ↦ list_loop fuel entries
                | false ↦ list_loop fuel (
                    entries
                    ++ record {
                      name = lossy name;
                      stat = parse_stat_body (take stat_body_len (drop 4 buf));
                    }
                      ∷ [])
              ]
        ]
      ]

  unfoldable pub list : Text → Io (List SyncDirEntry)
  unfolding send_request list_loop
  list path = send_request id_list path >> (λ s. list_loop (suc (length s.incoming)) [] s)

  -- The output is any `AsyncWrite`: a state and what `write_all` makes of it.
  module _ {ℓ} {W : Type ℓ} (write_out : Text → W → Result Error (Unit {0}) × W) where
    -- What recv returns, and the output and the connection that it leaves.
    abbrev pub Received : Type ℓ
    Received = Result Error ℕ × W × Stream

    -- `?` on a read: the rest of the loop, or the error.
    abbrev pub on_read :
        {A : Type 0} → Result Error A × Stream → W → (A → Stream → Received) → Received
    on_read (ok a, s) w k = k a s
    on_read (err e, s) w k = (err e, w, s)

    -- `?` on a write to the output.
    abbrev pub on_write : Result Error (Unit {0}) × W → Stream → (W → Received) → Received
    on_write (ok u, w) s k = k w
    on_write (err e, w) s k = (err e, w, s)

    -- One response of the device, its header read; `next` is the next round of the loop.
    unfoldable pub respond :
        Text → Text → ℕ → (ℕ → W → Stream → Received) → ℕ → W → Stream → Received
    respond path id len next written w s = elim (text_eq id id_data) [
      | true ↦ elim (ltb data_max len) [
        | true ↦ (err protocol, w, s)
        | false ↦
            on_read (read_exact len s) w λ chunk s2.
              on_write (write_out chunk w) s2 λ w1. next ((written + len) % 2 ^ 64) w1 s2
      ]
      | false ↦ elim (text_eq id id_done) [
        | true ↦ (ok written, w, s)
        | false ↦ elim (text_eq id id_fail) [
          | true ↦ on_read (read_exact len s) w λ msg s2. (err (sync path (lossy msg)), w, s2)
          | false ↦ (err protocol, w, s)
        ]
      ]
    ]

    unfoldable pub recv_loop : Text → ℕ → ℕ → W → Stream → Received
    unfolding respond
    recv_loop path zero written w s = (err protocol, w, s)
    recv_loop path (suc fuel) written w s = on_read (read_exact 8 s) w λ header s1.
        respond path (take 4 header) (number_at 4 4 header) (recv_loop path fuel) written w s1

    unfoldable pub recv : Text → W → Stream → Received
    unfolding send_request recv_loop
    recv path w s =
        on_read (send_request id_recv path s) w
          λ u t. recv_loop path (suc (length t.incoming)) 0 w t

unfoldable pub quit : Io (Unit {0})
unfolding send_request
quit = send_request id_quit []
