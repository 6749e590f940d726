-- ===== src/Command/Id.antt =====
-- command.h: `enum CommandIDs`.
use cpc_cplink.Prelude.{ℕ}

abbrev pub unknown : ℕ
unknown = 0

abbrev pub ping : ℕ
ping = 1

abbrev pub shutdown : ℕ
shutdown = 2

abbrev pub time : ℕ
time = 3

abbrev pub date : ℕ
date = 4

abbrev pub reset : ℕ
reset = 5

abbrev pub help : ℕ
help = 6

abbrev pub reboot : ℕ
reboot = 7

abbrev pub tron : ℕ
tron = 8

abbrev pub troff : ℕ
troff = 9

abbrev pub version : ℕ
version = 10

abbrev pub wifi_ip : ℕ
wifi_ip = 11

abbrev pub shell_exec : ℕ
shell_exec = 12

abbrev pub spare2 : ℕ
spare2 = 13

abbrev pub spare3 : ℕ
spare3 = 14

abbrev pub spare4 : ℕ
spare4 = 15

abbrev pub spare5 : ℕ
spare5 = 16

abbrev pub spare6 : ℕ
spare6 = 17

abbrev pub spare7 : ℕ
spare7 = 18

abbrev pub spare8 : ℕ
spare8 = 19

abbrev pub spare9 : ℕ
spare9 = 20

abbrev pub create_alloc : ℕ
create_alloc = 21

abbrev pub free_alloc : ℕ
free_alloc = 22

abbrev pub retrieve_alloc : ℕ
retrieve_alloc = 23

abbrev pub store_alloc : ℕ
store_alloc = 24

abbrev pub insert_alloc : ℕ
insert_alloc = 25

abbrev pub cut_alloc : ℕ
cut_alloc = 26

abbrev pub load_alloc : ℕ
load_alloc = 27

abbrev pub save_alloc : ℕ
save_alloc = 28

abbrev pub get_file : ℕ
get_file = 29

abbrev pub put_file : ℕ
put_file = 30

abbrev pub get_mem_file : ℕ
get_mem_file = 31

abbrev pub put_mem_file : ℕ
put_mem_file = 32

abbrev pub max_commands : ℕ
max_commands = 33
