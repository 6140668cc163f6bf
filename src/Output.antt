-- ===== src/Output.antt =====
-- output/ip/ip.c: what the thread of the UDP output does to a buffer before it is written.
-- A buffer is a list of bytes, 7 times of 8 bytes and then transport packets of 188 bytes; the tests that
-- damage packets on purpose take their number from global counters. Writes past the end are left out:
-- the theorems ask for buffers that hold seven packets, which is what the manglers count on.
pub mod Local
pub mod Drops
pub mod Every
pub mod Rtp
mod Tests
use obe_rt.Base.{
  ℕ, zero, suc, ◌+◌, ◌*◌, ◌/◌, ◌%◌, Bool, true, false, ◌&&◌, List, [], ◌∷◌, Option, none, some,
  ◌==◌, if◌then◌else◌, set, get_or, take, drop,
}
use obe_rt.Base.Int.{ℤ, pos, negsuc, ◌-ℤ◌, ltb_ℤ, eqb_ℤ}

-- `*(q + i) = f( *(q + i) )`
pub update_at : ℕ → (ℕ → ℕ) → List ℕ → List ℕ
update_at i f buffer = set buffer i (f (get_or buffer i 0))

-- `|= 0x80`, `|= 0xc0` and `|= 0x40` on a byte
abbrev pub or_80 : ℕ → ℕ
or_80 b = b % 128 + 128

abbrev pub or_c0 : ℕ → ℕ
or_c0 b = b % 64 + 192

abbrev pub or_40 : ℕ → ℕ
or_40 b = b / 128 * 128 + 64 + b % 64

-- `(*(q + 1) << 8 | *(q + 2)) & 0x1fff`
pub packet_pid : ℕ → List ℕ → ℕ
packet_pid q buffer = (get_or buffer (q + 1) 0 * 256 + get_or buffer (q + 2) 0) % 8192

-- Which packets a mangler takes, and what it does to the packet at an offset.
pub record Mangler : Type 0 where
  pub hits : ℕ → List ℕ → Bool
  pub damage : ℕ → List ℕ → List ℕ

pub set_bad_sync : ℕ → List ℕ → List ℕ
set_bad_sync q buffer = update_at q (λ _. 0x46) buffer

pub set_tei : ℕ → List ℕ → List ℕ
set_tei q buffer = update_at (q + 1) or_80 buffer

-- The pid is flipped so that the decoder cannot decode the packet.
pub flip_pid : ℕ → List ℕ → List ℕ
flip_pid q buffer = update_at (q + 2) or_40 (update_at (q + 1) or_c0 buffer)

pub bad_sync : Mangler
bad_sync = record { hits = λ q buffer. true; damage = set_bad_sync }

pub tei : Mangler
tei = record { hits = λ q buffer. true; damage = set_tei }

pub drop_pid : ℕ → Mangler
drop_pid pid = record { hits = λ q buffer. packet_pid q buffer == pid; damage = flip_pid }

pub mangle_pmt : Mangler
mangle_pmt = record {
  hits = λ q buffer. packet_pid q buffer == 0x30;
  damage = λ q buffer. update_at (q + 9) (λ _. 0xff) buffer;
}

pub scramble_video : Mangler
scramble_video = record {
  hits = λ q buffer. packet_pid q buffer == 0x31;
  damage = λ q buffer. update_at (q + 3) or_c0 buffer;
}

-- The loop over j that leaves when the counter is used up, from the offset q on.
pub while_counted : Mangler → ℕ → ℕ → ℤ → List ℕ → ℤ × List ℕ
while_counted m zero q count buffer = (count, buffer)
while_counted m (suc k) q count buffer =
    let hit = m.hits q buffer in
    let left = if hit then count -ℤ pos 1 else count in
    let after = if hit then m.damage q buffer else buffer in
    let rest = while_counted m k (q + 188) left after in
    if hit && ltb_ℤ left (pos 1) then (pos 0, after) else rest

-- The loop over j that looks at every packet and has no `break`.
pub every_packet : Mangler → ℕ → ℕ → ℤ → List ℕ → ℤ × List ℕ
every_packet m zero q count buffer = (count, buffer)
every_packet m (suc k) q count buffer =
    let hit = m.hits q buffer in
    every_packet m k (q + 188) (if hit then count -ℤ pos 1 else count)
      (if hit then m.damage q buffer else buffer)

-- The tests `if (g_udp_output_...)` around the loops, for seven packets behind seven times.
pub run_counted : Mangler → ℤ → List ℕ → ℤ × List ℕ
run_counted m count buffer =
    if eqb_ℤ count (pos 0) then (count, buffer) else while_counted m 7 56 count buffer

pub run_every : Mangler → ℤ → List ℕ → ℤ × List ℕ
run_every m count buffer =
    if eqb_ℤ count (pos 0) then (count, buffer) else every_packet m 7 56 count buffer

-- The counters `g_udp_output_..._packet`.
pub record Counters : Type 0 where
  pub drop_next : ℤ
  pub bad_sync_next : ℤ
  pub tei_next : ℤ
  pub drop_next_pat : ℤ
  pub drop_next_pmt : ℤ
  pub mangle_next_pmt : ℤ
  pub scramble_next_video : ℤ
  pub drop_next_video : ℤ
  pub drop_next_audio : ℤ

-- The manglers one after the other.
pub mangle : Counters → List ℕ → Counters × List ℕ
mangle g d₀ =
    let (c₁, d₁) = run_counted bad_sync g.bad_sync_next d₀ in
    let (c₂, d₂) = run_counted tei g.tei_next d₁ in
    let (c₃, d₃) = run_every (drop_pid 0) g.drop_next_pat d₂ in
    let (c₄, d₄) = run_every (drop_pid 0x30) g.drop_next_pmt d₃ in
    let (c₅, d₅) = run_counted mangle_pmt g.mangle_next_pmt d₄ in
    let (c₆, d₆) = run_counted scramble_video g.scramble_next_video d₅ in
    let (c₇, d₇) = run_counted (drop_pid 0x31) g.drop_next_video d₆ in
    let (c₈, d₈) = run_counted (drop_pid 0x32) g.drop_next_audio d₇ in
    (
      record {
        drop_next = g.drop_next;
        bad_sync_next = c₁;
        tei_next = c₂;
        drop_next_pat = c₃;
        drop_next_pmt = c₄;
        mangle_next_pmt = c₅;
        scramble_next_video = c₆;
        drop_next_video = c₇;
        drop_next_audio = c₈;
      },
      d₈,
    )

-- `obe_core_get_payload_packets` for a payload size
abbrev pub payload_packets : ℕ → ℕ
payload_packets payload_size = payload_size / 188

-- The bytes that `udp_write` is given.
pub payload_of : ℕ → List ℕ → List ℕ
payload_of payload_size buffer = take payload_size (drop (payload_packets payload_size * 8) buffer)

abbrev written : ℕ → Counters × List ℕ → Counters × Option (List ℕ)
written payload_size (g, buffer) = (g, some (payload_of payload_size buffer))

-- One round of the loop over the buffers for UDP: the counters after it, and what is written, if anything.
pub send_udp : ℕ → Counters → List ℕ → Counters × Option (List ℕ)
send_udp payload_size g buffer =
    if eqb_ℤ g.drop_next (pos 0)
    then written payload_size (mangle g buffer)
    else (record g { drop_next = g.drop_next -ℤ pos 1 }, none)
