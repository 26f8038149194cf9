-- ===== src/Config/Settings/Valid.antt =====
-- What the settings satisfy that `validateSettings` accepts.
use yachtsense_link_emulator.Common.{
  ◌≤◌, true, false, ◌&&◌, ◌||◌, not, List, [], ◌≡◌, refl, sym, ◌≢◌, subst, ltb, ◌==◌, length, All,
  ok, refuse_first-All, Bool-cases, inl, inr, ◌⊎◌,
}
use yachtsense_link_emulator.Common.Bytes.{Bytes, codes, equal, equal_iff, contains_byte}
use yachtsense_link_emulator.Common.Int.{pos}
use yachtsense_link_emulator.Config.Text.{clean_serial, safe_interface, printable, all_bytes}
use yachtsense_link_emulator.Config.Text.Serial.{IsSerial, clean_serial-IsSerial}
use yachtsense_link_emulator.Config.Settings.{
  Settings, validate_settings, outside, equal_ℤ, settings_checks, starts_with_dash, ends_with_dash,
  all_safe, is_mode, is_host_byte,
}
use yachtsense_link_emulator.Config.Settings.Checks.{
  InRange, IsSafe, not_outside, equal_ℤ_refl, or-false, or-false3, or-false4, not-false, and-imp,
  not_long_le, not_short_le, no_byte, safe_interface-IsSafe, all_safe-All, printable-length,
  printable-All,
}

-- The settings under which the daemon starts
pub record IsValid (c : Settings) : Type 0 where
  pub dashboard_range : InRange 1024 65535 c.dashboard_port
  pub health_range : InRange 1 65535 c.health_port
  pub ports_differ : c.dashboard_port ≢ c.health_port
  pub ttl_range : InRange 1 86400 c.ttl
  pub prefix_range : InRange 0 32 c.prefix_bits
  pub raynet_choice :
      (c.raynet_mode ≡ codes "auto") ⊎ ((c.raynet_mode ≡ codes "manual") × IsSafe c.axiom_interface)
  pub apps_few : length c.remote_interfaces ≤ 16
  pub apps_safe : All IsSafe c.remote_interfaces
  pub apps_chosen : c.app_mode ≡ codes "manual" → c.remote_interfaces ≢ []
  pub serial_bytes : IsSerial c.serial
  pub serial_size : (1 ≤ length c.serial) × (length c.serial ≤ 32)
  pub version_size : (1 ≤ length c.version) × (length c.version ≤ 64)
  pub instance_size : (1 ≤ length c.instance_name) × (length c.instance_name ≤ 63)
  pub instance_bytes : All (λ b. (32 ≤ b) × (b ≢ 127)) c.instance_name
  pub instance_no_dot : contains_byte c.instance_name b'.' ≡ false
  pub host_size : (1 ≤ length c.hostname) × (length c.hostname ≤ 63)
  pub host_no_dot : contains_byte c.hostname b'.' ≡ false
  pub managed_manual : c.manage_ip ≡ true → c.raynet_mode ≡ codes "manual"

serial_kept :
    (s : Bytes)
    → (not (printable s 32) || not (equal s (clean_serial s))) ≡ false
    → IsSerial s × (1 ≤ length s) × (length s ≤ 32)
serial_kept s h =
    let (a, b) = or-false (not (printable s 32)) (not (equal s (clean_serial s))) h in
    let same : s ≡ clean_serial s =
      (equal_iff s (clean_serial s)).0 (not-false (equal s (clean_serial s)) b) in
    subst (λ t. IsSerial t × (1 ≤ length t) × (length t ≤ 32)) (sym same) (clean_serial-IsSerial s)

raynet_chosen :
    (m n : Bytes)
    → not (is_mode m) ≡ false
    → (equal m (codes "manual") && not (safe_interface n)) ≡ false
    → (m ≡ codes "auto") ⊎ ((m ≡ codes "manual") × IsSafe n)
raynet_chosen m n known safe = elim (Bool-cases (equal m (codes "manual"))) [
  | inl e ↦ inr (
    (equal_iff m (codes "manual")).0 e,
    safe_interface-IsSafe n (and-imp (equal m (codes "manual")) (safe_interface n) safe e),
  )
  | inr e ↦ elim (Bool-cases (equal m (codes "auto"))) [
    | inl a ↦ inl ((equal_iff m (codes "auto")).0 a)
    | inr a ↦ absurd (cc (rw (a, e) at known))
  ]
]

app_chosen :
    (m : Bytes) (apps : List Bytes)
    → (equal m (codes "manual") && length apps == 0) ≡ false
    → m ≡ codes "manual"
    → apps ≢ []
app_chosen m apps h e none_given =
    absurd (cc (rw (none_given, (equal_iff m (codes "manual")).1 e) at h))

-- Settings that `validateSettings` accepts, however they came about, have these ranges, lengths and
-- forms.
pub validate_settings-IsValid : (c : Settings) → validate_settings c ≡ ok tt → IsValid c
unfolding validate_settings
validate_settings-IsValid c h =
    let (
      dash,
      (
        _,
        (
          _,
          (
            raynet,
            (
              app,
              (
                _,
                (
                  _,
                  (
                    ranges,
                    (
                      raynet_safe,
                      (
                        few,
                        (
                          chosen,
                          (safe, (serial_ok, (texts, (host, (host_bytes, (_, (managed, _))))))),
                        ),
                      ),
                    ),
                  ),
                ),
              ),
            ),
          ),
        ),
      ),
    ) =
      refuse_first-All (settings_checks c) h in
    let (dash_out, same_port) =
      or-false (outside (pos 1024) (pos 65535) c.dashboard_port)
        (equal_ℤ c.dashboard_port c.health_port) dash in
    let (prefix_out, health_out, ttl_out, _) =
      or-false4 (outside (pos 0) (pos 32) c.prefix_bits) (outside (pos 1) (pos 65535) c.health_port)
        (outside (pos 1) (pos 86400) c.ttl) (outside (pos 5) (pos 200) c.log_lines) ranges in
    let (version_bad, instance_bad, dotted) =
      or-false3 (not (printable c.version 64)) (not (printable c.instance_name 63))
        (contains_byte c.instance_name b'.') texts in
    let (short, long, _) =
      or-false3 (ltb (length c.hostname) 1) (ltb 63 (length c.hostname))
        (starts_with_dash c.hostname || ends_with_dash c.hostname) host in
    let instance_printable = not-false (printable c.instance_name 63) instance_bad in
    let (serial_bytes, serial_some, serial_short) = serial_kept c.serial serial_ok in
    record {
      dashboard_range = not_outside 1024 65535 c.dashboard_port dash_out;
      health_range = not_outside 1 65535 c.health_port health_out;
      ports_differ = equal_ℤ_refl c.dashboard_port c.health_port same_port;
      ttl_range = not_outside 1 86400 c.ttl ttl_out;
      prefix_range = not_outside 0 32 c.prefix_bits prefix_out;
      raynet_choice = raynet_chosen c.raynet_mode c.axiom_interface raynet raynet_safe;
      apps_few = not_long_le 16 (length c.remote_interfaces) few;
      apps_safe = all_safe-All c.remote_interfaces (not-false (all_safe c.remote_interfaces) safe);
      apps_chosen = app_chosen c.app_mode c.remote_interfaces chosen;
      serial_bytes = serial_bytes;
      serial_size = (serial_some, serial_short);
      version_size = printable-length c.version 64 (not-false (printable c.version 64) version_bad);
      instance_size = printable-length c.instance_name 63 instance_printable;
      instance_bytes = printable-All c.instance_name 63 instance_printable;
      instance_no_dot = dotted;
      host_size = (not_short_le (length c.hostname) short, not_long_le 63 (length c.hostname) long);
      host_no_dot =
          no_byte is_host_byte b'.' c.hostname refl
            (not-false (all_bytes is_host_byte c.hostname) host_bytes);
      managed_manual = λ e.
          (equal_iff c.raynet_mode (codes "manual")).0
            (and-imp c.manage_ip (equal c.raynet_mode (codes "manual")) managed e);
    }
