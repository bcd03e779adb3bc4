-- ===== src/Runtime/Tests.antt =====
-- A process that does not stop, a port that does not answer, and a disk that takes a new image.
use microbe.Base.{
  ◌⊎◌, and_then, continue, ℕ, ◌+◌, ◌*◌, ◌<◌, ◌≡◌, refl, Bool, true, false, ℤ, pos, Option, none,
  some, [], ◌++◌, Text, codes, text_eq, is_space, trim_left, reverse_onto, trim_space, ok,
  if◌then◌else◌, arith, itoa,
}
use microbe.Config.Schema.{Healthcheck}
use microbe.Runtime.Process.{
  after_last_paren, process_alive, sigterm, Host, stop_grace, stop_service,
}
use microbe.Runtime.Stopping.{Advances, IsOver, stop_service-IsOver}
use microbe.Runtime.Poll.{Clock, probe_health}
use microbe.Runtime.Polled.{IsClock, IsSettled, probe_health-IsSettled}
use microbe.Runtime.Volume.{
  Floats, Disk, unsnoc, size_suffix, trimmed_size, parse_volume_size, lift, image_path,
  create_image, format_image, of_result, make_volume, IsMade, ensure_volume, ensure_volume_inv,
}

-- A process that ignores every signal, on a host that is its clock.
abbrev stubborn : Host ℕ
stubborn = record {
  now = λ s. s;
  select = λ d s. (false, s + d);
  stat = λ s pid. some (codes "42 (a) b) S 1");
  signal = λ pid signal s. s;
}

stubborn-Advances : Advances stubborn
stubborn-Advances = λ d s h. omega arith

still_alive : process_alive (stubborn.stat 0 (pos 42)) ≡ true
unfolding process_alive after_last_paren trim_left is_space
still_alive = refl

stop_example :
    IsOver stubborn
      (pos 42)
      (stubborn.now (stubborn.signal (pos 42) sigterm 0) + stop_grace)
      (stop_service stubborn (pos 42) 52 stop_grace 0)
stop_example = stop_service-IsOver stubborn (pos 42) 0 stubborn-Advances refl still_alive

-- A clock on which a dial takes one unit, and nothing answers.
abbrev silent : Clock ℕ
silent = record {
  now = λ s. s;
  sleep = λ d s. s + d;
  is_socket = λ path s. false;
  dial = λ addr timeout s. (false, s + 1);
}

silent-IsClock : IsClock silent
silent-IsClock = (λ d s. omega arith, λ addr timeout s. omega arith)

abbrev probed : Healthcheck
probed = record {
  interval = codes "2";
  timeout = codes "1";
  start_period = codes "9";
  port = pos 80;
}

abbrev durations : Text → Option ℤ
durations text =
    if text_eq text (codes "2")
    then some (pos 2)
    else if text_eq text (codes "9")
    then some (pos 9)
    else some (pos 1)

reads_interval : durations probed.interval ≡ some (pos 2)
unfolding text_eq
reads_interval = refl

reads_timeout : durations probed.timeout ≡ some (pos 1)
unfolding text_eq
reads_timeout = refl

reads_start_period : durations probed.start_period ≡ some (pos 9)
unfolding text_eq
reads_start_period = refl

abbrev join_host_port : Text → Text → Text
join_host_port host port = host ++ (codes ":" ++ port)

probe_example :
    (result : Option Bool × ℕ) × (probe_health silent durations join_host_port 11 probed
        (codes "::1")
        0
      ≡ ok result)
    × IsSettled
        (silent.dial (join_host_port (codes "::1") (itoa probed.port)) (pos 1))
        (λ t. silent.now 0 + 9 < silent.now t)
        result
probe_example =
    probe_health-IsSettled silent durations join_host_port probed (codes "::1") 2 9 (pos 1) 0
      silent-IsClock (omega arith) reads_interval reads_timeout reads_start_period

-- Floats that are whole numbers of one digit.
abbrev whole : Floats ℕ
whole = record {
  parse_float = λ text. some 2;
  not_positive = λ f. false;
  ceil_times = λ mult f. pos (f * mult);
}

-- The state is whether the image is there, and every command succeeds.
abbrev sound : Disk Bool
sound = record {
  exists = λ there path. there;
  mkdir_all = λ path there. (none, there);
  run = λ args there. (none, true);
  join = λ a b. a ++ (codes "/" ++ b);
  parent = λ path. path;
}

made :
    ensure_volume whole sound [] (codes "data") (codes "2G") (codes "ext4") false
    ≡ (ok (image_path whole sound [] (codes "data")), true)
unfolding ensure_volume make_volume create_image format_image of_result lift image_path and_then
    continue parse_volume_size trimmed_size size_suffix unsnoc trim_space trim_left reverse_onto
    is_space text_eq
made = refl

abbrev data_path : Text
data_path = image_path whole sound [] (codes "data")

volume_example :
    (data_path ≡ image_path whole sound [] (codes "data"))
    × (((sound.exists false data_path ≡ true) × (true ≡ false))
        ⊎ ((sound.exists false data_path ≡ false)
            × IsMade whole sound data_path (codes "2G") (codes "ext4") false true))
volume_example =
    ensure_volume_inv whole sound [] (codes "data") (codes "2G") (codes "ext4") data_path false true
      made
