-- ===== src/Lib.antt =====
-- Moon-Flare, a daemon that polls batteries, chargers and inverters: its device protocols and its device manager.
--
-- The program. A plugin owns one device. It opens a serial port, a network socket or a Bluetooth
-- link, lets a protocol module of src/ make frames out of the bytes, decodes them, and hands a
-- reading to the daemon. The modules here are those protocol modules and the device
-- manager of the daemon, which calls the plugins, one directory to each.
--
-- Prelude: native numbers, lists and bytes, masks and shifted ors for every width (Bits), signed
--   integers (Int).
-- Xd: src/xd/bms_proto.c. Frame is `bms_check` and `bms_build_frame`. Txrx is the non-blocking
--   transaction, `bms_txrx_init` and `bms_txrx_step`, with `drive` for the loop of its caller. A
--   descriptor is a script of what its system calls answer, one event to each call; time is in
--   microseconds. Realtime is `bms_parse_realtime`, where every read is checked, and Flags
--   `bms_flag_set` with its table.
-- Jk: src/jk/jk_proto.c and src/jk/jk_proto.h. Frame is the byte sum and the readers, Command the
--   builders, Assembler `jk_assembler_feed`, Decode the decoders of settings and device information.
-- Magnum: src/magnum. Tables holds the codes and texts of mag_decode.c, Packet the tests of
--   mag_frame.c on single packets, Names `mag_pkt_name`, and Framer the state machine of
--   mag_frame.c: `step` is one round of `process`, and a call of the packet function is an element
--   of the list `out`. Times are doubles there, and what `mag_frame_idle` makes of them is an
--   argument. State is the records of mag_decode.h, Units its reads, and Decode the decoders, with
--   `mag_decode` in Dispatch.
-- Textbelt: src/textbelt/tb.c. Phone is `tb_phone_norm`, `tb_phone_mask` and `tb_recipients`, Form
--   `tb_escape` and `tb_form`, Message `tb_message`.
-- Classic: src/classic/classic_codec.c, `classic_decode`.
-- Usb: src/usb/usb_id.c. Ring is the ring of endpoint events, Identity `mf_usb_identify` and what
--   it calls, Resolve `mf_usb_find_by_serial` and `mf_usb_resolve`. A record of functions stands for
--   the files that the system calls show.
-- Cli: src/cli/cli_addr.c, `cli_split_host_port`. Address also has `strtol`.
-- Device: src/device/device.c, the slots of the daemon. Plugin is the operations of a plugin and
--   `mf_plugins_find` of src/plugin/loader.c, Spec the record of a device in src/config/config.c with
--   its endpoint and its JSON, Table the slots and the tick, Add `mf_devices_add`, Settings
--   `mf_devices_put_settings` and `mf_devices_action`, Apply the configurations and deletion. The
--   state, `Devices`, holds the 32 slots, the queue of additions and the calls of the history store in
--   their order. Distinct is the invariant with one module for each kind of operation, and Reach the
--   operations as steps.
-- Phantom: src/phantom/phantom.c, the list of modules that a phantom averages and its settings, which
--   look devices up in the table of Device.
-- Http: src/http/http_pt.c and src/http/http_pt.h. Header is the reading of header fields, Conn the
--   state of a connection and `http_reply`, Fields the fields of a request, and Recv `parse_headers`,
--   `conn_do_recv`, `conn_keep_alive_reset` and `conn_do_send`. picohttpparser, the REST routes, the
--   text of the health report and the answers of `read` and `write` are arguments.
--
-- Loops. The loops of system calls recur on the script. The loop of `jk_assembler_feed` takes the
-- length of its buffer and one more as fuel; each round that goes on shortens the buffer.
-- `process` of the Magnum framer takes two units for each byte and two more, since a round that uses
-- no byte ends the wait for a packet; the loop of its `feed` takes one for each byte and one more.
--
-- Numbers. Machine integers are native numbers with the wrap written out. A float or a double is
-- the whole number that the code scales, or its thousandths where the code only compares and copies
-- it, so nothing here depends on rounding.
--
-- Not modelled: opening ports and the blocking transaction of src/xd, the voltage clamps and the cell
-- decoder of src/jk (floats decide there), the JSON of src/magnum,
-- the averages of src/phantom, the replies of Textbelt (JSON),
-- accepting of connections and their idle timer in src/http, and the other parts of the daemon.
pub mod Prelude
pub mod Xd
pub mod Jk
pub mod Magnum
pub mod Textbelt
pub mod Classic
pub mod Usb
pub mod Cli
pub mod Device
pub mod Phantom
pub mod Http
