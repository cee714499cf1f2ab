-- ===== src/Srv/Uri.antt =====
-- vtok_srv/src/worker.rs, `describe_token`: the PKCS#11 URI of a key.
use aws_nitro_enclaves_acm.Prelude.{ℕ, ◌++◌, Bytes, codes, hex_upper, hex_lower}
use aws_nitro_enclaves_acm.Common.Defs.{manufacturer, token_model}

unfoldable pub key_uri : ℕ → Bytes → ℕ → Bytes → Bytes
key_uri slot_id token_label key_id key_label =
    codes "pkcs11:model="
    ++ (token_model
        ++ (codes ";manufacturer="
            ++ (manufacturer
                ++ (codes ";serial=EVT"
                    ++ (hex_upper slot_id
                        ++ (codes ";token="
                            ++ (token_label
                                ++ (codes ";id=%"
                                    ++ (hex_lower key_id
                                        ++ (codes ";object="
                                            ++ (key_label ++ codes ";type=private")))))))))))
