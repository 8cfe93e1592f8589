-- ===== src/Functions/System.antt =====
-- functions/system.c: the date, the users and the system information. `none` is an access out of
-- bounds.
pub mod Answers
use instruction_parser.Prelude.{
  ℕ, zero, suc, ◌+◌, ◌/◌, ◌%◌, ◌^◌, ℤ, pos, is_nonzero, Option, none, some, ◌>>=◌, List, [], ◌∷◌,
  ◌++◌, get_elem?, length, drop, replicate, ltb, leb, ◌==◌, if◌then◌else◌,
}
use instruction_parser.Strings.{codes, c_string, store, strncpy_bytes}
use instruction_parser.Protocol.Words.{word_at}
use instruction_parser.Handle.{decimal}

-- The fields of `struct tm` and `struct timeval` that are read.
pub record Clock : Type 0 where
  pub tm_year : ℕ
  pub tm_mon : ℕ
  pub tm_mday : ℕ
  pub tm_hour : ℕ
  pub tm_min : ℕ
  pub tm_sec : ℕ
  pub tv_usec : ℕ

-- The static variables, and the rest of the device.
pub record Device (E : Type 0) : Type 0 where
  pub now : Clock
  pub mode : ℕ
  pub result : ℕ
  pub outside : E

-- `sprintf(cmd, "hisi_hwclock -s time %d/%d/%d/%d/%d/%d", ...)`, at most 46 bytes of 64.
unfoldable pub hwclock_text : ℕ → ℕ → ℕ → ℕ → ℕ → ℕ → List ℕ
hwclock_text year mon day hour min sec =
    codes "hisi_hwclock -s time "
    ++ (decimal year
        ++ b'/'
          ∷ (decimal mon
              ++ b'/'
                ∷ (decimal day
                    ++ b'/' ∷ (decimal hour ++ b'/' ∷ (decimal min ++ b'/' ∷ decimal sec)))))

-- `sprintf(cmd, "date -s \"%d-%d-%d %d:%d:%d\"", ...)`, at most 35 bytes of 64.
unfoldable pub date_text : ℕ → ℕ → ℕ → ℕ → ℕ → ℕ → List ℕ
date_text year mon day hour min sec =
    codes "date -s "
    ++ b'"'
      ∷ (decimal year
          ++ b'-'
            ∷ (decimal mon
                ++ b'-'
                  ∷ (decimal day
                      ++ b' '
                        ∷ (decimal hour
                            ++ b':' ∷ (decimal min ++ b':' ∷ (decimal sec ++ b'"' ∷ []))))))

-- `strncpy(to, mem, n)` into 64 bytes of zeros: what `to` then holds as a string.
unfoldable pub strncpy_64 : ℕ → List ℕ → Option (List ℕ)
strncpy_64 n mem = do
  copied ← strncpy_bytes n mem
  to ← store (replicate 64 0) 0 copied
  c_string to

module _ {E : Type 0} (system : List ℕ → E → ℤ × E) (clock : E → Clock) where
  -- The branch that sets the date. A failure of the first command ends in `return 0`.
  unfoldable pub set_clock : List ℕ → Device E → Option (ℤ × Device E)
  set_clock mem d = do
    year ← word_at mem 1
    mon ← get_elem? mem 3
    day ← get_elem? mem 4
    hour ← get_elem? mem 5
    min ← get_elem? mem 6
    sec ← get_elem? mem 7
    let (ret, e) = system (hwclock_text year mon day hour min sec) d.outside
    let (ret', e') = system (date_text year mon day hour min sec) e
    some (
        if is_nonzero ret
        then (pos 0, record d { mode = 1; outside = e })
        else (ret', record d { mode = 1; outside = e' }))

  unfoldable pub set_system_date : List ℕ → Device E → Option (ℤ × Device E)
  set_system_date mem d = do
    b0 ← get_elem? mem 0
    if b0 == 1 then set_clock mem d else some (pos 0, record d { mode = 0; now = clock d.outside })

  -- The branch that adds a user. A failure is kept in `result`, and the return value does not tell.
  unfoldable pub add_user : List ℕ → Device E → Option (ℤ × Device E)
  add_user mem d = do
    name_len ← get_elem? mem 1
    passwd_len ← get_elem? mem (2 + name_len)
    name ← strncpy_64 name_len (drop 2 mem)
    passwd ← strncpy_64 passwd_len (drop (name_len + 3) mem)
    let cmd = codes "/usr/sbin/add_user " ++ (name ++ b' ' ∷ passwd)
    let (ret, e) = system cmd d.outside
    if ltb (length cmd) 128
        then some (pos 0, record d { result = if is_nonzero ret then 1 else d.result; outside = e })
        else none

  unfoldable pub add_system_user : List ℕ → Device E → Option (ℤ × Device E)
  add_system_user mem d = do
    b0 ← get_elem? mem 0
    if b0 == 1 then add_user mem d else some (pos 0, d)

  unfoldable pub get_system_info : List ℕ → Device E → Option (ℤ × Device E)
  get_system_info mem d = some (pos 0, d)

-- The text forms only log a message.
module _ {E : Type 0} where
  unfoldable pub text_set_system_date : List ℕ → Device E → Option (ℤ × Device E)
  text_set_system_date mem d = some (pos 0, d)

  unfoldable pub text_add_system_user : List ℕ → Device E → Option (ℤ × Device E)
  text_add_system_user mem d = some (pos 0, d)

  unfoldable pub text_get_system_info : List ℕ → Device E → Option (ℤ × Device E)
  text_get_system_info mem d = some (pos 0, d)

module _ {E : Type 0} where
  unfoldable pub set_date_reply : List ℕ → Device E → Option (ℤ × List ℕ × Device E)
  set_date_reply reply d =
      if d.mode == 0
      then (store reply 0 (
            (d.now.tm_year + 1900) / 2 ^ 8 % 2 ^ 8
            ∷ (d.now.tm_year + 1900) % 2 ^ 8
            ∷ (d.now.tm_mon + 1) % 2 ^ 8
            ∷ d.now.tm_mday % 2 ^ 8
            ∷ d.now.tm_hour % 2 ^ 8
            ∷ d.now.tm_min % 2 ^ 8
            ∷ d.now.tm_sec % 2 ^ 8
            ∷ d.now.tv_usec / 2 ^ 24 % 2 ^ 8
            ∷ d.now.tv_usec / 2 ^ 16 % 2 ^ 8
            ∷ d.now.tv_usec / 2 ^ 8 % 2 ^ 8
            ∷ d.now.tv_usec % 2 ^ 8
            ∷ [])
          >>= λ r. some (pos 11, r, d))
      else (store reply 0 (0 ∷ []) >>= λ r. some (pos 1, r, d))

  unfoldable pub add_system_user_reply : List ℕ → Device E → Option (ℤ × List ℕ × Device E)
  add_system_user_reply reply d =
      if d.result == 1
      then (store reply 0 (1 ∷ []) >>= λ r. some (pos 1, r, record d { result = 0 }))
      else (store reply 0 (0 ∷ []) >>= λ r. some (pos 1, r, d))

  unfoldable pub get_system_info_reply : List ℕ → Device E → Option (ℤ × List ℕ × Device E)
  get_system_info_reply reply d =
      store reply 0 (
        1 ∷ 2 ∷ 3 ∷ 4 ∷ 1 ∷ 1 ∷ 0x07 ∷ 0xe2 ∷ 0x08 ∷ 0x03 ∷ 0x03 ∷ 0x17 ∷ 0x10 ∷ 0x00 ∷ 0x09 ∷ 0x9a
        ∷ 0x43 ∷ 0x36 ∷ 0x03 ∷ 0x17 ∷ 0x10 ∷ 0x10 ∷ 0x08 ∷ 0x0 ∷ 0x7 ∷ 0x63 ∷ 0x61 ∷ 0x70 ∷ 0x73
        ∷ 0x75 ∷ 0x6c ∷ 0x65 ∷ [])
      >>= λ r. some (pos 32, r, d)
